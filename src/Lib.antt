-- ===== src/Lib.antt =====
-- Icecast, a streaming media server: sources send a stream to a mount point, and listeners receive it.
--
-- A source client's thread runs `source_main` (src/source.c). Each pass reads a buffer from the
-- source, appends it to the queue of the stream, lets every listener send what it can, removes the
-- listeners that failed, admits pending ones, and frees the buffers at the head of the queue that
-- nobody needs. A listener is found a source by the mount it asks for and by the fallbacks of the
-- configured mounts; when a source goes, its listeners move to another. What a client may do is a
-- matter of the ACL of its role. URIs, Base64 texts and dictionaries are tools of all of these.
--
-- Which file models what:
--   Prelude       the shared names: Boolean tests, lists by native numbers, C strings, integers.
--   Stream        src/refbuf.c and the queue in src/source.c: `append_buffer` is the part of
--                 `source_main` that appends a buffer and moves the burst point, `reduce_queue` the
--                 part that frees buffers, `addref` and `release` are `refbuf_addref` and
--                 `refbuf_release`. The state is `Stream`, with the queue and the burst fields.
--   Listener      src/format.c, `client_set_queue` of src/client.c and `send_to_listener` of
--                 src/source.c: `check_file_buffer`, `check_http_buffer` and `check_advance_queue`
--                 are the three functions behind `client->check_buffer`, an enumeration here.
--   SourceMain    the loop body of `source_main` in src/source.c: `serve_clients`, `admit_clients`,
--                 `update_listeners`, and `main_pass`, which is one pass.
--   Moving        `source_move_clients` of src/source.c.
--   Mounts        `source_find_mount_raw` and `source_find_mount` of src/source.c, and
--                 `config_find_mount` of src/cfgfile.c.
--   Auth          the stack of authenticators of src/auth.c: `add_client` is the way of one client
--                 through `auth_add_client`, `__handle_auth_client` and
--                 `__move_client_forward_in_auth_stack`.
--   Backends      src/auth_htpasswd.c and src/auth_static.c, with `get_line` of src/util.c: `recheckfile`,
--                 `adduser` and `deleteuser` are the functions `htpasswd_…` of these names. A password
--                 file is its bytes, and `Disk` also says which system calls succeed.
--   Playlist      src/playlist.c.
--   MatchFile     src/matchfile.c.
--   Acl, Admin    src/acl.c, and the table of admin commands of src/admin.c.
--   Words         `util_str_to_bool` of src/util.c.
--   Mp3           src/format_mp3.c: `filter_meta` is the loop of `mp3_get_filter_meta`,
--                 `get_filter_meta` the whole of it, `set_title` is `mp3_set_title`, `set_tag` is
--                 `mp3_set_tag`, and `write_buf_to_client` is `format_mp3_write_buf_to_client`.
--                 `Mp3/Demux` describes a stream with inline metadata byte by byte, as any player
--                 reads it.
--   Events        src/event.c: `emit_clientevent` is `event_emit_clientevent`, `thread_round` a round
--                 of `event_run_thread`, and `Handled` says which handler was called.
--   Ebml          src/format_ebml.c: `parse_var_int`, `parse_tag` and `parse_sized_int` are the
--                 `ebml_…` functions of these names; `rounds` is the loop of `ebml_wrote`, one
--                 `round_at` for each `case`; `get_buffer` is `ebml_get_buffer`, for what the coming
--                 calls of `client_read_bytes` give. A buffer with its position is the list of the
--                 bytes up to it. The state is `Ebml`, the struct `ebml_t`. `Ebml/Listener` writes to a
--                 listener: `send_round` is a round of the loop of `send_to_listener`.
--   Stats         src/stats.c: `process_global` and `process_source` are `process_global_event` and
--                 `process_source_event` of one tree, `stats_round` is a round of `_stats_thread`,
--                 `listener_round` one of `stats_connection`, and a run is any sequence of their turns.
--                 A listener also keeps the events that were taken out of its queue.
--                 `stats_get_streams` lists the streams, a block at a time.
--   Header        `util_read_header` of src/util.c, for what a socket receives round by round.
--   Relays        the update of the lists of relays in src/slave.c: `update_relay_set` and `update_relays`.
--   Trees         the AVL library's trees as src/source.c and src/stats.c search them: `tree_search` is
--                 the loop of `source_find_mount_raw`, `_find_node` and `_find_source`.
--   Uri           the URI functions of src/util.c.
--   Base64, Dict  the Base64, hexadecimal and dictionary functions of src/util.c.
--   Tests         examples that compute, and applications of the theorems.
-- The children of a module hold its parts or, named for what they prove, its theorems.
--
-- How the state is modelled. A buffer of the queue has an identity that is never given twice, a
-- length, a sync point and a reference count; a pointer into the queue is the identity. So the
-- aliasing that matters is explicit: the burst point and any number of listeners refer to a
-- buffer, and the count is a number that the code changes, not one computed from the references. A
-- client's socket is a script of what its coming sends do. The tree of the clients is the list of
-- its elements in order, and the insertion of the AVL library is a parameter (`TreeInsert`) that
-- puts the element somewhere among the others. The trees of the statistics are search trees as the
-- code searches them, with the library's insertion and deletion as the parameter `Avl`. `fnmatch`,
-- `atoi`, the MD5 digest, the names of the HTTP methods, and what the code calls of libvorbis and
-- libxml to set a tag (`TagLibrary`) are parameters too.
--
-- Bounds. The send loop of `send_to_listener` makes at most 10 rounds, as in the code. The search
-- along the fallbacks makes at most `MAX_FALLBACK_DEPTH` (10) rounds, as in the code. The loop of
-- `acl_set_ANY_str` runs on fuel, one more than the bytes of the string, which is enough, since
-- each round but the last drops a comma. The loop over the lines of a password file runs on fuel,
-- the number of its bytes, which is enough, since each round takes at least one. The loop of
-- `ebml_wrote` runs on fuel, 3 for each byte of the input and 3 more, which is enough, since at
-- most three rounds come before bytes are taken. The numbers that it parses and adds keep the
-- wrap-around of 64 bits. All other loops recurse on a list or on the tree of the sources.
--
-- Not modelled: allocation failures; locks, since each modelled part runs under those of the code;
-- the statistics that the modelled parts count, logs and the dump file; the text of response
-- headers, of which only the length is an input; buffers associated with a buffer, which hold
-- stream metadata; the overflow of counters. Of the statistics the XML and the text of an event
-- are left out. The authenticators' queues, the backend that asks a server, connections, file
-- serving, the formats' own metadata, the streams of relays, the directory listing and the
-- handlers of the admin interface are outside, as are all calls of libxml, libcurl, OpenSSL,
-- libogg and the common library.
pub mod Prelude
pub mod Uri
pub mod Stream
pub mod Header
pub mod Listener
pub mod Relays
pub mod Stats
pub mod Trees
pub mod SourceMain
pub mod Mounts
pub mod Moving
pub mod Admin
pub mod Acl
pub mod Words
pub mod Backends
pub mod Base64
pub mod Dict
pub mod Playlist
pub mod Auth
pub mod MatchFile
pub mod Mp3
pub mod Ebml
pub mod Events
mod Tests
