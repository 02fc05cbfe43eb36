-- ===== src/Lib.antt =====
-- LALI_RPC_FRAME, a network library with an HTTP server and a JSON-RPC server and client, in C++.
--
-- The program reads the bytes of a connection into a growing buffer (LALI/net/Buffer.h), from which
-- one of three users takes messages: the HTTP server (LALI/net/HttpServer.cpp, HttpContext.cpp), the
-- RPC server (LALI/zrpc/server/BaseServer.cpp), whose messages "length\r\nbody" are JSON requests for
-- registered procedures (Rpcserver.cpp, RpcService.cpp, Procedure.cpp), and the RPC client
-- (LALI/zrpc/client/RpcClient.cpp), which finds the callback of each response by its number.
-- LALI/zrpc/stub generates C++ stubs from a description of a service.
--
-- Base holds shared names: Boolean tests, lists, bytes, integers, ordered maps (Base/Dict) and decimal
-- text (Base/Decimal).
-- Net/Buffer models Buffer.h and Buffer.cpp: `storage` is the vector, `reader_index` and
--   `writer_index` are the indices, and each method is a function on that record. Buffer/Content has
--   the theorems on contents, Buffer/Search those on findCRLF, Buffer/Queue the refinement of a queue.
-- Net/TcpConnection models TcpConnection.cpp in the loop's thread: the state, the channel's two flags,
--   the buffers, and as events what goes to the socket, the loop and the user. TcpConnection/Stream
--   has the bytes that are sent, TcpConnection/Pending the invariant of the output.
-- Net/TimerQueue models the ordered timers of TimerQueue.cpp, with the theorems on the order in
--   TimerQueue/Order and those on expired and repeating timers in TimerQueue/Reset.
-- Net/EventLoop models the pending functors of EventLoop.cpp and the wake-ups of its thread; Steps
--   interleaves its steps with those of other threads, Alert is their invariant, Runs the whole runs.
-- Net/Channel and Net/Poller model the interest of channels and their registration with epoll
--   (Channel.h, Poller.cpp): the calls of epoll_ctl are recorded, and Poller/Interest replays them on
--   a list of interests. Poller/Steps and Registered keep the two in step.
-- Net/Connector models Connector.cpp, with Retry and Bounds on its delays. Net/Acceptor and
--   Net/TcpServer model the acceptance of connections and the server's map of them; TcpServer/Names
--   and Fresh are on their names. Net/TcpClient models TcpClient.cpp over the connector, and
--   TcpClient/Reconnect its new connections.
-- Net/LoopPool models the choice of a loop in EventLoopThreadPool.cpp, with LoopPool/RoundRobin.
-- Net/Http models the HTTP server: Request is HttpRequst.h, Context is HttpContext.cpp with
--   parseRequst as a loop of rounds, Respond is HttpRespond.cpp, Server is HttpServer.cpp, where the
--   calls on the connection are a list of effects. RequestLine, Fields and RoundTrip relate the parser
--   to a printer of requests, Progress has its termination, Answer the bytes that are sent.
-- Zrpc/Json is the interface of the JSON library, Zrpc/Thrown the exceptions and calls of a run.
--   Zrpc/Procedure and Zrpc/Server model validation and dispatch, Server/Frame the message loop.
--   Server/Batch models the responses of a batch, as steps of the threads that hold them. Server/Sound,
--   Invokes and Notify have the theorems on dispatch, Delivery and Stuck those on the loop.
--   Zrpc/Header has the frame that server and client share. Zrpc/Client models the client, and
--   Client/Calls, Client/Answers and Client/Delivery have its theorems.
-- Zrpc/Done models the callback of LALI/zrpc/util.h that builds a response; Done/Library names what it
--   relies on in the JSON library, and Done/Answered follows a result to the client's callback
--   and Done/Completes a call to its procedure and back.
-- Zrpc/Stub models the generators: Generator is StubGenerator.cpp, Template the replacement of
--   placeholders, ClientStub, ServiceTemplates and ServiceStub the generated text. Counts and Replace
--   have the theorems.
-- Zrpc/Sample is a small JSON library for the tests.
--
-- Log/Stream models the fixed buffer and the stream of LALI/base/Logstream.h; Stream/Convert relates
--   the integer conversion to decimal text, and Stream/Fit says what a stream holds. Log/Async models
--   AsyncLogging.cpp, where a message, the stop, and the test, the exchange and the writing of the back
--   end are steps; Ready is its invariant, Rounds the exchange and the writing, Safe the runs. Log/File
--   models LogFile.cpp and FileUtil.cpp, and File/Roll is on the files together. Threads/Pool models
--   ThreadPool.cpp with its threads counted by what they do, and Pool/Live is on its runs.
--
-- Bytes are numbers. Sizes are natural numbers: a std::size_t or an int64 number of a call does not
-- wrap at the sizes that occur. A copy beyond the storage, undefined in the source, extends it.
-- Fuel: a parse takes fuel above the readable bytes, since each round but the last removes a line; the
-- RPC loops need two rounds, since a request takes the whole buffer; a replacement takes fuel above the
-- occurrences of the first byte of what it replaces.
--
-- Not modelled: LALI/jackson, a copy of another project's JSON library, is a parameter. The theorems on
-- framing assume that it reads the decimal digits of an int32, and the one on whole calls that it adds
-- members and reads back what was written. The user's callbacks are elements of a type, and their calls
-- are events. The results of system calls are arguments. The start of threads, the
-- locks, the unused queues and the wrappers of system calls are not modelled.
pub mod Base
pub mod Net
pub mod Zrpc
pub mod Log
pub mod Threads
