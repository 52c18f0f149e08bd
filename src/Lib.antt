-- ===== src/Lib.antt =====
-- The client library of nut_webgui for the protocol of Network UPS Tools, and the server's own logic.
--
-- nut_webgui_upsmc turns the text of a response of upsd into values. internal/lexer.rs cuts the
-- text into tokens, internal/parser_utils.rs takes one token at a time and checks it, and each
-- `deserialize` of response/ is a sequence of such calls and ends with the test that nothing is
-- left. What the client sends is escaped by internal/escape.rs.
--
-- Files, and the code of nut_webgui_upsmc/src they are about:
--   Upsmc/Text            what the crate uses of Rust's str: texts are lists of UTF-8 bytes
--   Upsmc/Error           error.rs
--   Upsmc/Lexer           internal/lexer.rs; Lexer/Scan says what a token is without the code
--   Upsmc/Escape          internal/escape.rs
--   Upsmc/Names           ups_name.rs, cmd_name.rs, var_name.rs, internal/ascii_rules.rs
--   Upsmc/Parser          internal/parser_utils.rs; a use of parse_line! is a do block
--   Upsmc/Value           value.rs, with the parser of floats as a parameter
--   Upsmc/Bits            u32 and u8 words as bits, for the flags of ups_status.rs and permission.rs
--   Upsmc/Status          ups_status.rs
--   Upsmc/Event           ups_event.rs
--   Upsmc/ItemPool        internal/item_pool.rs, as steps of the calls that share the pool
--   Upsmc/Dict            HashMap with texts as keys
--   Upsmc/Values          response/: the responses that hold values, types or addresses, with
--                         ups_variables.rs and var_type.rs; Values/Printed is what upsd prints
--   Upsmc/Command         command.rs
--   Upsmc/Str             str::trim and the bytes of characters
--   Upsmc/Client          client/client_base.rs: requests and responses on a connection;
--                         Client/Errors is the protocol errors of error.rs, Client/Pooled the
--                         calls of client/client_pool.rs
--   Upsmc/Response        response/: the lists of devices and of commands, the three descriptions,
--                         and the responses that begin with OK
--
-- and of nut_webgui/src:
--   Auth/Token            auth/permission.rs, auth/nonce.rs, auth/access_token.rs
--   Auth/Signer           auth/token_signer.rs, over any BinaryToken and any Mac
--   Auth/Session          auth/username.rs, auth/user_session.rs
--   Auth/Users            auth/user_store.rs, with the loop of main.rs that fills the store
--   Auth/Utf8             core::str::from_utf8
--   Http/StatusDetail     http/hypermedia/ups_status.rs
--   Http/Api              http/json_api/middleware/auth_api.rs and authorize_api.rs
--   Http/Cookie           http/hypermedia/middleware, route/login.rs, and the pages of http.rs that
--                         a permission protects
--   Http/Keys             http/hypermedia/route/api_key.rs
--   Http/Checks           http/json_api/problem_detail.rs, and what route/rw.rs, instcmd.rs and
--                         fsd.rs check of a request; Checks/Fits says it without the code
--   Http/Writes           what these routes send: http/json_api/route.rs and client/client_auth.rs
--   Http/Messages         http/event_api/message.rs and message_broadcast.rs
--   Http/Probe            http/probe.rs, http/json_api/middleware/daemon_status.rs
--   Config/UriPath        config/uri_path.rs
--   Config/Settings       config.rs, config/tls_mode.rs, and the arguments of config/cfg_*.rs
--   Config/Layers         config/utils.rs and `apply_layer` of config/cfg_*.rs; Layers/Load is
--                         load_configs of main.rs, Layers/Connection says without the code
--                         what becomes of a connection
--   Sync/State            state.rs
--   Sync/Events           event.rs, event/batch.rs, event/channel.rs
--   Sync/Devices          sync/sync_device.rs, sync/error.rs
--   Sync/Clients          sync/sync_status.rs: the clients of a device
--   Sync/Descriptions     sync/sync_desc.rs
--   Sync/Statuses         sync/sync_status.rs: both synchronisations and the timer between them
--
-- A status of a device is read from its variable ups.status, and two statuses give the events in
-- between. The pool lends the connections to upsd. A token is what a client of the server's API
-- holds, a session is what a browser holds; both are signed under one key. A user gets a session
-- by a login and makes tokens with it, and the middleware let a request through to a protected
-- route only with a token or a session that holds the permission of the route.
--
-- The clock, the random numbers, HMAC, scrypt, base64, the text of a cookie, the rendered pages,
-- and the parsers, the printer and the arithmetic of floats and of IP addresses are arguments.
-- What is asked of HMAC is that a tag has 32 bytes and that verify_slice accepts the tag only,
-- of scrypt that its output is 32 bytes, and of the printer of floats that it prints no line feed.
--
-- A method that moves the lexer is a function from the state to a result and a state. The four
-- results are a value, an error of the crate, a panic, and `diverged`, which stands for a loop
-- that its fuel did not finish. A slice off a character boundary panics, as in Rust. A text is
-- at most isize::MAX bytes long, as every Rust allocation is, so that offsets do not overflow.
--
-- A `while let` loop over the lines of a list is on fuel: one more than the bytes of the
-- response, which is enough because each line costs at least one byte.
--
-- A connection is the bytes that upsd has sent or will send, and whether it closes the
-- connection behind them. The loop over the lines of a list in inner_send_raw is on fuel, one
-- more than these bytes: a line that is there costs at least one, so that the loop is out of
-- fuel only where it goes on for ever, and the timeout of send_raw ends it. When the timeout
-- strikes is not modelled.
--
-- Not modelled: the opening of sockets and TLS (client/), the sockets of the browsers, logging,
-- serde and Display implementations that only print, HTML templates and the other routes of the
-- server, the reverse DNS of sync/, and how the arguments, the environment and the file are read
-- (clap, std::env and toml).
pub mod Prelude
pub mod Upsmc
pub mod Auth
pub mod Http
pub mod Sync
pub mod Config
