-- ===== src/Lib.antt =====
-- Verification library for the example programs of KasperskyOS Community Edition (examples/).
--
-- Each group of files models one example, its source under examples/:
--
--   ErrorsViaIpc (errors_via_ipc/). Two servers add two numbers, and refuse every other request;
--     two clients send a request, go over to the other server on a refusal, and are stopped by
--     the security policy after one repeat. Protocol: the messages and the exception converter
--     (include/cpp/exception_converter.h). Servers: `SumRequest_impl` and the dispatch loop of
--     server_c/src/server.c, `NumberSummarizer` of server_cpp/src/server.cpp. Clients:
--     `ProcessRequest` of client_cpp/src/client.cpp and the loop of client_c/src/client.c. System:
--     the clients in front of both servers behind einit/src/security.psl.
--   Jwt (jwt/). A web server that hands out tokens of a token service, and data to who shows one.
--     Http: requests, responses and `HttpUriHandler`. Paths: `GetMimeType` and `ConcatPath`.
--     Query: `GetParamValue`. Handlers: the three URI handlers (web_server/src). TokenService:
--     `Generate` and `Verify` (token_service/src/main.cpp). WebServer: `HandleRequest`,
--     `SetHandler`, `RemoveHandler` and the server that `main` sets up. Session: the callbacks of
--     `Session` and `Listener` (web_server/src/webserver.cpp) as steps on the operations that are
--     outstanding.
--   Rabbitmq (rabbitmq/). Dump: `AmqpDump` with its state (common/utils/utils.cpp). Errors:
--     `ThrowOnError`, `ThrowOnAmqpError` and the clock. Client: the publisher and the consumer.
--   CAres (c-ares/). Callable: the callback object with its queue of handlers and its thread
--     (common/callable.h). Address, Resolver and Polling: `OnResolved`, the list of requests
--     and the poll descriptors of resolver/src/resolver.cpp; `OnResolved`, which takes no mutex, is
--     two steps where it runs on another thread than the resolver's. Client: `main` of
--     client/src/main.cpp with its callback object, whose destructor waits for the calls that
--     are still to come.
--   Wifi (wifi/wpa_supplicant_client/client/src/). Manager: `ConnectionManager`, which joins a
--     network by commands. Property: `GetProperty`, which reads its status. Client: the class
--     `BoostTcpSocket` and `main` (main.cpp), which joins a network, greets a server and leaves.
--   Cellular (cellular/). Memory: the buffer behind a pointer, of which every write is checked.
--     Pdu: `AsciiToPDU`, which encodes a short message (mbim_sms/client/src/main.c). Client:
--     `WaitSimReady`, `WaitRegistered` and `main` of the same file, over any behaviour of the
--     modem. Ntpd: `SetInitialTime`, `MbimConnect`, `WaitTimeUpdate` and `main` of
--     mbim_ntpd/client/src/client.c.
--   Grpc (grpc/). CommandLine: `TryParse` and the loops over the arguments
--     (libraries/utility_lib/CommandLineArg.cc and both `main`). Server: the credentials, the
--     service and `main` (server/src). Client: the channel, the requests and `main` (client/src).
--   Nkpp (nkpp/). Protocol: the food, the exceptions and their converter (common/). Server: the
--     animals behind the endpoints (server/src/main.cpp). Client: the two loops of
--     `ExampleAnimals` (client/src/main.cpp).
--   Sequence (sequence/). Writer: the sequences, their text, the policy
--     (einit/src/security.psl) and the loop of the writer in front of the reader.
--   Hasher (boringssl/hasher/src/main.cpp). Digest: the class `Digest` and `PrintMessageDigest`.
--   Protobuf (protobuf/). Books: `ReadAddressBook` (producer/src/main.cpp) and the messages of
--     resources/proto/addressbook.proto. Producer: `main`, which sends a book for each file.
--     Consumer: `PrintAddressBook`, `MsgConsumer` and `main` (consumer/src/main.cpp). Delivery: both
--     programs together.
--   ExecutionManager. Acts: calls that end a program where one fails. Client: `PublishService`,
--     `WaitForNotification` and `main` of execution_manager_separated_vfs/client/src. Application:
--     the program that it starts (application/src/main.cpp). Launcher: `main` of
--     package_manager_utilities/launcher/src/main.cpp.
--   Uvc (uvc_camera_stills/client/src/main.c). Jpeg: `GetJpegSize`, over every buffer. Profiles:
--     `ConfigureCamera`. Frames: `YUYVToRGB`, `SaveYUYV` and `SaveMJPEG`, down to the bytes of the
--     files. Capture: `MakeSnapshots`, `CaptureCameraSnapshots` and `main`, with the calls of the
--     camera's library that they make.
--   Prelude holds what these share: tests, lists, byte texts, maps, decimal numbers, and
--     `std::getline` over a string stream.
--
-- Texts are lists of bytes. The libraries that the programs call (the IPC transport, boost,
-- jwt-cpp, librabbitmq, c-ares, wpa_supplicant, libmbim, gRPC, BoringSSL, nlohmann's JSON, protobuf,
-- the execution and package managers, the camera's library), floating-point arithmetic and the file
-- system are parameters; a theorem names what it needs of them. Threads are step relations: a mutex makes
-- each step whole.
--
-- Fuel: the loops over a stream start with one more than the length of the text, and each round
-- reads at least one byte. The decimal digits of a number start with one more than the number. The
-- clients' loops take the number of requests that they may send. The waits for the modem count
-- seconds, as the source does. The endless loop of the sequence writer is given by its first rounds,
-- for every number of them. A write outside a buffer is a fault that ends the run, and so are a
-- read outside a buffer and an assertion that fails. The loops of `GetJpegSize` start with one more
-- than the size, and each round reads a byte further on. The wait for a camera takes the number of
-- searches.
--
-- Not modelled: most of the logging (`InterrogateCamera` only logs), delays, the random choices of
-- the clients (the theorems are for every choice), the set-up of transports, `WebServer::Run`, TLS,
-- `main` of the c-ares resolver, the destructors that only call a library, and iperf_wifi, abseil
-- and cpython, which only call libraries.
pub mod Prelude
pub mod ErrorsViaIpc
pub mod Jwt
pub mod Rabbitmq
pub mod CAres
pub mod Wifi
pub mod Cellular
pub mod Grpc
pub mod Nkpp
pub mod Sequence
pub mod Hasher
pub mod Protobuf
pub mod ExecutionManager
pub mod Uvc
