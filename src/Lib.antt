-- ===== src/Lib.antt =====
-- knet: a header-only network library in C++ over asio (include/). A model of parts of it and what has
-- been proved of them.
--
-- The parts and how they interact. A connection (TcpConnection, and over it the WebSocket, HTTP and
-- pipe connections) owns a socket. The socket reads into a buffer, asks the connection for the length
-- of the package at the front (`process_package`, which for a WebSocket is `handle_package`), and
-- hands packages and events to it. What a connection sends goes through the two write buffers of its
-- socket. The listener and the connector make connections on the threads of the workers. `LoopBuffer`
-- is a byte ring between threads.
--
-- Event models the event codes of include/knet_handler.hpp and their texts.
--
-- Utils.LoopBuffer models include/utils/loop_buffer.hpp: the record LoopBuffer holds `head`, `tail`
-- (both 32-bit words that wrap round) and the array; push, mpush, pop, read, commit, peek, size,
-- empty, clear and the rounding of the size are definitions of the same names. Contents says what the
-- ring holds, Write, Read, Parts and History what the operations do to that.
--
-- Utils.Timer models include/utils/timer.hpp: the nodes are a store named by their ids, `timer_nodes`
-- is the list of the ids in the table; a wait that is over is `handle_timeout`, with what the handler
-- returns. Stopped and Restarted are about `stop_timer` and `restart_timer`.
--
-- Websocket.Frame models `send_text`, `get_message_length` and `handle_package` of
-- include/websocket/wsock_connection.hpp; Encode says what a frame is, Bytes how a length is cut into
-- bytes. Websocket.Reader models `WSMessageReader` of include/websocket/wsock_protocol.hpp; View,
-- RoundTrip, Messages and Delimit put the two together. The bytes and the handler's views are lists.
--
-- Websocket.Upgrade models the state of `WSockConnection` with the upgrade, and `handle_data` of
-- include/websocket/wsock_factory.hpp, over the decoder and the encoder of Http; what is code of other
-- projects is the record Surroundings. Routed is about the handlers of messages.
--
-- Tcp.Socket and Tcp.Reading model include/tcp/asio/tcp_socket.hpp. A step takes the record Socket and
-- gives the socket afterwards with the effects in order: calls of the connection (event, deliver,
-- released) and of asio (start_read, start_write, start_connect, close_sock). A call of
-- async_read_some, async_write, async_connect or asio::post is an effect or a task, and its handler is
-- a step of its own, so that the order of handlers is the order of steps. `need_reconnect` and
-- `process_package` are the record Conn. Tcp.Socket.Send and Flow are about the write buffers,
-- Tcp.Reading.Framing, Stream and Frames about the loop of `process_data`, Tcp.Protocol, Handlers and
-- Lifetime about what a connection is told, Tcp.Stall about a failed write.
--
-- Tcp.Connection models include/tcp/asio/tcp_connection.hpp: the record Connection with the timers of
-- its worker (the record World), so that `stop_timer` of a connection is `stop_timer` of Utils.Timer.
-- Tcp.Listener models include/tcp/asio/tcp_listener.hpp, with the answers of asio and of the handlers
-- as arguments; Turns is about the choice of a worker.
--
-- Pipe.Proto models include/pipe/pipe_proto.hpp and `handle_package` of
-- include/pipe/pipe_connection.hpp; Pipe.Delimit puts it on top of the socket. Pipe.Session and
-- Pipe.Factory model include/pipe/pipe_session.hpp and include/pipe/pipe_factory.hpp: sessions are
-- shared, so the record Factory holds a store of them, and the tables `bind_pipes` and `unbind_pipes`
-- hold pointers; a connection is its cid. Handshake and Agreement put a client and a server together.
--
-- Tcp.Connector models include/tcp/asio/tcp_connector.hpp: workers, connections and handlers are
-- numbers that stand for pointers, and `none` is the use of a null pointer. Chain is about
-- `remove_event_handler`, Table about the table of connections.
--
-- Utils.Url models include/utils/knet_url.hpp and `options_from_url` of include/knet.hpp: a text is
-- the list of its bytes, the parameters are a list of pairs with different keys in the order in which they were put (the `std::unordered_map` of the code promises no order), and what would throw
-- is none. Params, Encode and Loose are about `parse` and `encode`, Calls and Options about the
-- parameters.
--
-- Kcp.Message and Kcp.Connection model include/kcp/kcp_message.hpp and include/kcp/kcp_connection.hpp,
-- with the control messages in Kcp.Control and receiving in Kcp.Receive. The library ikcp is the
-- record Ikcp of its calls (Kcp.Ikcp), with what its documentation promises as IkcpLaws; its clock and
-- the datagrams are arguments. Kcp.Listener and Kcp.Connector model include/kcp/kcp_listener.hpp and
-- kcp_connector.hpp: the tables hold the connections that the code shares by pointer; Isolated sets
-- the listener against one connection. Life runs the operations in any order, Sending is about the
-- ring that `msend` writes to.
--
-- Http.Message and Http.Encoder model the tables of include/http/http_message.hpp and the writing of
-- messages (include/http/http_encoder.hpp, http_request.hpp, http_response.hpp). Http.Decoder models
-- include/http/http_decoder.hpp: the parser is the record Parser, of the callbacks that it makes for
-- some bytes and the number of bytes that it takes. Http.Connection models
-- include/http/http_connection.hpp and the routes of include/http/http_factory.hpp; user's handlers
-- are functions of the request and the response.
--
-- Udp.Connection, Udp.Listener and Udp.Connector model the files of the same names of include/udp,
-- with asynchronous sends and the calls of handlers as effects, and the handlers' results as
-- arguments; Udp.Arrivals runs the listener over what arrives.
--
-- Bounds and fuel. Bytes are numbers; a length that the code keeps in 32 or 64 bits is reduced there.
-- The loop of `process_data` runs on fuel of one more than the bytes in the buffer: a round takes a
-- byte at least. `readPos` and `read_buffer_pos` are 32-bit in the code and at most the 16384 bytes of
-- the buffer. The loop of `handle_receive` (KCP) runs on fuel of one more than the bytes of the
-- datagram: a round that goes on adds a byte at least to `recvLen`. `remove_event_handler` of the
-- connector runs on any number of rounds, since its loop may not end.
--
-- Not modelled: asio, sockets and name resolution (effects and the steps of their handlers), threads
-- and locks (an order of steps stands for an interleaving; the ring is used by one thread), logging,
-- the synchronous sends, TLS, the worker threads, KPipe, the HTTP and WebSocket servers and clients
-- (they start and stop a listener or a connector), KcpListener::destroy_connection and
-- KcpConnector::stop, which do not compile when they are used, and the parts that are copies of other
-- projects (HTTP parser, URL class, KCP library, WebSocket key). Handlers of the application do not
-- call back into the socket before they return.
pub mod Base
pub mod Event
pub mod Http
pub mod Kcp
pub mod Pipe
pub mod Tcp
pub mod Udp
pub mod Utils
pub mod Websocket
