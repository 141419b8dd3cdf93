-- ===== src/Lib.antt =====
-- wifi-ctrl talks to wpa_supplicant (a station) and hostapd (an access point) over their control
-- sockets. A client puts requests, each with a oneshot channel for its answer, into the bounded
-- request channel of a runner. The runner sends commands over one datagram socket and waits for one
-- reply to each; over a second socket the daemon sends events unasked, which the runner answers
-- waiting scans and selects from, and broadcasts.
--
-- The files, by the code that they model:
--   Prelude, Prelude/* the helpers that all parts share. Prelude/Bags has lists up to their order.
--   Text, Text/*       the parts of Rust's `str`, `u8` and integers that the code uses. A text is the
--                      list of its bytes. Text/Hex has the interface of the crate hex.
--   Errors             src/error.rs, and `ConfigError` of src/config.rs.
--   Config/*           src/config.rs. Table is the loop of `from_str`, with the `HashMap` as a list of
--                      entries; Deserialize is the `Deserializer`; Unprintf is `unprintf`, whose
--                      loop is a mutual block by where in an escape it stands; Struct is the
--                      reading of a struct with the fields that serde derives. Form,
--                      Collect, Escapes and HexEscape prove what they do.
--   Socket/*           src/socket_handle.rs. World is the state that the socket shares with the
--                      daemon; Handle has `request`, `command`, `command_matching` and `parse_resp`; Open
--                      has `open`. Replies and Waits prove what they do, Frame and Quiet what they leave
--                      alone, Gives, Logged and Untold what they answer and broadcast.
--                      Channel is tokio's bounded channel, with the sending of put-off requests to
--                      it in both `run`s; Channel/Make is its making, and Channel/Oneshot the end of
--                      a oneshot channel.
--   Service, Service/Fifo
--                      what clients are promised by a runner, and by one that replies in order.
--   Sta/Bssid, Psk, Network, Scan, Status, Networks
--                      the types of src/sta/types.rs and the commands made from them, with
--                      `conf_escape` of src/sta/mod.rs. The modules below them and Listed prove what
--                      they do.
--   Sta/Client, Calls  src/sta/client.rs: the requests and broadcasts, and the methods of
--                      `RequestClient`.
--   Sta/System         the clients and the loop of one call of `run`, interleaved, as a step relation, with
--                      System/View the map to Service; Once, Told and Refines prove what they do.
--   Sta/Life           the station and its clients from its making to its drop, with `run` called and
--                      cancelled any number of times, as a step relation. Deferred, Held, Once, Hangs and
--                      Waits prove what it does.
--   Sta/Script         programs that use the client next to the runner, as the examples do. Shutdowns,
--                      Ends, Heard and Finishes prove how they and the runner end.
--   Sta/Events         the events of src/sta/event_socket.rs. Events/Classified proves what
--                      texts they are.
--   Sta/Run            `run` of src/sta/mod.rs as a whole: from the start into the loop, with its clients.
--   Sta/Setup          src/sta/setup.rs. Setup/Starts goes from there to the start of the loop.
--   Sta/Fail           what becomes of the reply "FAIL".
--   Sta/Station, Loop, Start
--                      src/sta/mod.rs: the handlers, `run_internal`, and `run` up to it, with
--                      `EventSocket::new`. Station/Balance, Select, Gives, Untold and Quiet,
--                      Loop/Settled, Gives, Heard, Drained and Stops, and Start/Requeue prove what they do.
--   Ap/*               src/ap: Types has `Status` and `Config` of types.rs, Client the requests and
--                      broadcasts of client.rs, Events and Attach `EventSocket` and `retry_command` of
--                      event_socket.rs, Runner and Start the handlers and `run` of mod.rs, Calls
--                      the methods of `RequestClient`, Setup src/ap/setup.rs, System the clients and the
--                      loop, interleaved. Served, Heard, Retries, Unknown, Events/Addresses, Types/Lines,
--                      Setup/Starts, Start/Resend, System/InOrder, Told and Refines prove what they do.
--   Examples/*         examples/wifi-sta.rs and examples/wifi-ap.rs: `main` up to its `join!`, and the
--                      client of the first as a program of Sta/Script. QuickStart is the
--                      program of the documentation in src/lib.rs. Listed, Sta/Starts, Ap/Starts
--                      and Sta/Ends prove what they do.
--   Tests/*            concrete runs, with a hexadecimal codec of their own. Tests/Source has the unit
--                      tests of the program and the examples of its documentation.
--
-- How state is modelled: a handler is a function on the world of Socket/World (the datagrams that
-- wait, the commands sent, the answers and broadcasts given) and on the loop's variables (`Pending`),
-- with a `SocketError` that ends the runner. A oneshot channel is a number.
--
-- What the outside does is given as data or as functions: `Peer` is the daemon with the operating
-- system, which says for each command what `send` returns, which datagrams arrive and how the wait
-- ends; a list of wakes says what each `select!` of the loop yields; a list of happenings says what
-- comes first while a socket opens; `order` is the iteration order of a `HashMap`; `Mpsc` is the
-- interface of tokio's bounded channels and `Hex` that of the crate hex, with their documented laws
-- where a theorem needs them. For the examples, the list of interfaces and the lines read are
-- given.
--
-- Bounds: the control socket's buffer has 10240 bytes for a station and 2048 for an access point,
-- and the event socket's has 1024; a longer datagram is cut. `usize` and `isize` have 64 bits.
-- Loops are structural recursions on the texts and lists that they go through; `to_decimal` goes by
-- fuel, one more than the number, which is enough since each step divides it by ten.
--
-- Not modelled: logging, the temporary directory that a socket is bound in (its outcome is given),
-- the passing of time (the end of a wait is given), the cancelling of `run` and a second call of it
-- on the same access point, the standard library's reading of floats, and how the examples read a line.
pub mod Prelude
pub mod Text
pub mod Errors
pub mod Config
pub mod Socket
pub mod Service
pub mod Sta
pub mod Ap
pub mod Examples
pub mod Tests
