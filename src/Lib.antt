-- ===== src/Lib.antt =====
-- A verification library for the card dealer: a web server on a Raspberry Pi on which players choose a
-- card game and their number, and which then tells a PSoC over a serial line to deal.
--
-- Parts and how they interact. The server (web/restinio/sample/express_router/main.cpp) registers its
-- handlers at an Express-style router of RESTinio, a copy of which is in the tree. A request goes through
-- the router: its path is normalized, the routes are tried in order, by method and by regular expression,
-- and the first that matches gets its handler called. The handlers keep a selection (selected_t.hpp, with
-- game_t.hpp and players_t.hpp) in memory, load it from and save it to settings.txt (RPIdata.hpp), answer
-- with a response builder, whose header has its fields in a container and becomes text when it is sent,
-- and on /startgame have a frame of four bytes sent to the dealer (PSoCcom.hpp) over the serial port
-- (Serial.hpp). What a response builder has made goes to the coordinator of the
-- connection, which gives it out in the order of the requests; the connection writes each group that it is
-- given in operations of some buffers each. A test program (UARTTEST) sends what is typed over the same
-- kind of serial port.
--
-- Files:
--   Prelude               shared names, Boolean tests, lists, and the outcomes of C++ code: a value, an
--                         exception, undefined behaviour, or fuel that has run out.
--   Serial                Serial.hpp: the class Serial; readSome is read_some, readCString is
--                         read_c_string, and the two writeSome are write_some and write_c_string.
--   Psoc                  PSoCcom.hpp: startSpil is start_spil, step by step over its two arrays.
--   UartTest              UARTTEST/Version1/UARTTEST.cpp: main, one round of its loop after the other.
--   Settings              the data of the selection and RPIdata.hpp.
--   Handlers              the class selected_handler_t of main.cpp, one function per handler;
--                         Handlers.Running has runs of requests on one thread, and
--                         Handlers.Delivered takes a response on through a connection to a client.
--   Server                server_handler of main.cpp: the routes, and a request on its way to a handler.
--   Headers               web/restinio/restinio/http_headers.hpp: FieldId and FieldName have the fields,
--                         Fields with its children ByName and ById the container, Message the response
--                         header. Caseless is web/restinio/restinio/impl/to_lower_lut.hpp and
--                         web/restinio/restinio/impl/string_caseless_compare.hpp, and Text is
--                         web/restinio/restinio/impl/header_helpers.hpp.
--   Response              web/restinio/restinio/message_builders.hpp: the response builder with
--                         restinio controlled output; UserControlled and Chunked are the other two.
--   Express, RouteParams  web/restinio/restinio/router/express.hpp: parameters, entries and the router.
--   MethodMatcher         web/restinio/restinio/router/method_matcher.hpp and the method ids.
--   Path2Regex            web/restinio/restinio/path2regex/path2regex.hpp: a route becomes an expression.
--   Contexts, Coordinator web/restinio/restinio/impl/response_coordinator.hpp: the order in which the
--                         responses to pipelined requests go out, with the write groups of
--                         web/restinio/restinio/buffers.hpp.
--   WriteOutput           web/restinio/restinio/impl/write_group_output_ctx.hpp: the operations in which
--                         a group is written.
--   Connection            web/restinio/restinio/impl/connection.hpp: the write side of a connection.
--   Uri                   web/restinio/restinio/utils/percent_encoding.hpp and
--                         web/restinio/restinio/router/impl/target_path_holder.hpp.
--   Utf8Checker           web/restinio/restinio/utils/utf8_checker.hpp.
--   Tests                 instances of the theorems, and the concrete parameters that they take.
--
-- How code corresponds to definitions. A method that changes its object takes and returns a record of the
-- members; exceptions and undefined behaviour are values of Outcome, in a state monad where there is
-- state. A char is its byte and a string the list of its bytes. Sizes are natural numbers; the only
-- wrap-around that the modelled code can reach, n - 1 at n = 0 in readCString, is undefined behaviour by
-- the write that follows. Request ids of the coordinator are taken modulo 2 to the power of 32. Console
-- output is left out.
--
-- Parameters. What is not in the repository is an argument: the serial port is a script of what its reads
-- deliver and its writes accept; the JSON library is a record of its functions, of which some theorems
-- assume that it reads back what it has written; the regex engine is a record, of which the theorems on the
-- server assume its documented behaviour on the expressions that the routes become; the sizes of classes
-- are a function; so is fmt where it prints a size in hexadecimal, and std::cin.sync(). The most buffers
-- that one write operation takes is a number.
--
-- Fuel. readCString gives its loop the length of the port's input and one more for fuel, which is enough
-- because each round takes an entry of the input and a read behind the last one is an I/O error. On a real
-- line the loop can go on for ever, and what it does there is what it does on every beginning of what the
-- line delivers: fuel of so many rounds. The scan of a route has its length for fuel, and each match takes at least one character. A client that reads a header, which
-- stands in statements only, has one more round than the header has lines. init_write of a connection calls
-- itself only where a group has no items, and each call takes a group, so that the number of groups that
-- wait and one more is enough. main of the UART test has no end; its first rounds are taken.
--
-- Not modelled: main() of the server; the network side of RESTinio but for the write side of a connection:
-- the acceptor, timers, the parser, upgrades, websockets, transforms and files that are sent from disk; the
-- request header and the parsers of single fields; callbacks at the end of a write that throw; the other
-- routers and the variants of unescaping that the program does not use; files of tests and samples.
pub mod Prelude
pub mod Serial
pub mod Psoc
pub mod UartTest
pub mod Settings
pub mod Headers
pub mod Response
pub mod Handlers
pub mod MethodMatcher
pub mod RouteParams
pub mod Path2Regex
pub mod Utf8Checker
pub mod Uri
pub mod Express
pub mod Contexts
pub mod Coordinator
pub mod WriteOutput
pub mod Connection
pub mod Server
pub mod Tests
