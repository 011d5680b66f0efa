-- ===== src/Lib.antt =====
-- xbot_framework: services on microcontrollers and their interfaces on a host, over UDP.
--
-- A service (libxbot-service) advertises itself, is claimed by an interface (libxbot-service-interface),
-- is configured by it, exchanges data, transactions and RPC calls with it, and sends heartbeats. Both sides
-- share the packet formats of include/xbot/datatypes. This library models the C++ code:
--
-- - Wire: the formats. Wire/Header is XbotHeader.hpp, Wire/Payloads the claim and the description request,
--   Wire/Frames DataDescriptor and the loop over a transaction's payload that the service has twice and the
--   interface once. Bytes are numbers below 256, written low byte first as the packed structs of the supported
--   targets have them.
-- - Portable: the Linux implementations behind include/xbot-service/portable that hold state: the blocking
--   queue (queue.cpp) and the packet buffer (packet.cpp).
-- - Scheduler: Scheduler.cpp and Schedule.cpp. Callbacks run in the middle of a tick over a `Host`, the
--   interface that a program with a scheduler provides, and which Service/Loop fills.
-- - Service: Service.cpp. Service/State has the members, Service/Send the packets that a service sends and its
--   transactions, Service/Rpc the answers to RPC calls, Service/User the virtual methods that generated and user
--   code supply, Service/Lifecycle the starts, stops and schedules, Service/Handlers the messages that a service
--   receives, and Service/Loop its processing thread. Service/Status, Service/Sending, Service/Responses,
--   Service/Answers, Service/Parts, Service/Collect
--   and Service/Ticks prove properties of these.
--
-- - Portable/Routing: portable/linux/Io.cpp and ServiceIo.cpp, the hand-over of received packets to the services.
-- - Interface: libxbot-service-interface/src. Interface/Maps is the std::map of the code, Interface/Discovery is
--   ServiceDiscoveryImpl.cpp, Interface/Io is ServiceIO.cpp (State has the registrations and sending, Claims the
--   claims and timeouts, Messages the messages and the rounds of RunIo; Packets, Keeps, Interest, Ordered, Scans and
--   Timeouts prove properties of these), and Interface/Base is ServiceInterfaceBase.cpp.
--
-- - Template: what the generator wrote for codegen/templates/service.json and what the repository holds inside the
--   templates. ServiceTemplate.hpp and ServiceTemplate.cpp are Template/Members, Description (the bytes of the
--   description), Registers, Params and Calls (dispatchRpcCall), Advertise, and Generated, which makes the class an
--   `Impl`; ServiceInterfaceTemplate.cpp is Template/Client. Template/Ticks is about the service's scheduler, and
--   Template/Cbor is an independent reader of CBOR.
--
-- - Portable/Nics is the search for the primary network interface, which socket.cpp and system.cpp of the Linux port and
--   Socket.cpp of the interface have, and the node ID of system.cpp; Portable/Sockets is socket.cpp of the Linux port.
-- - Service/Logging is RemoteLogging.cpp, Interface/LogReceiver is RemoteLoggingReceiverImpl.cpp, and Interface/Socket is
--   Socket.cpp of the interface: what the system calls answer are arguments.
--
-- User code is a parameter, `Impl`: each virtual method is a program that calls the protected methods of a
-- service and sees what they return, over state of its own. The processing thread is a function on an
-- explicit `Service`; the time, the packets that the queue hands out and the user's code are inputs. What goes
-- to the socket is the list `sent`. On the interface's side the calls of callbacks are the list `events` of ServiceIO
-- and the notices that a step of the discovery gives back; what the callbacks do is not modelled.
--
-- The loop over a transaction's payload runs on fuel, one more than the number of bytes: every round takes at
-- least the eight bytes of a descriptor. `size_t` arithmetic wraps at a parameter, 2^64 in the service.
--
-- SendRpc waits twice on its condition variable: what the other threads do during the first wait, until no call
-- is in flight, is a function, and what arrives during the second, for the response, is a list.
--
-- The user's class of the generated service is a parameter too, `Callbacks`; it reaches the registers, and not the
-- private members. What Io::getEndpoint answers is a function of the time. The loop over the parameters of a
-- call runs on the same fuel as the loop over a transaction; the reader of CBOR runs on fuel that bounds the
-- number of values.
--
-- Not modelled: the program start of the interface, threads and mutexes (system calls), startRemoteLogging and the
-- thread of the log receiver, the data sources (wrappers of the heatshrink library), the ulog, Crow and CBOR
-- libraries, the Python and Go bindings, and the code generator itself.
pub mod Prelude
pub mod Wire
pub mod Portable
pub mod Scheduler
pub mod Service
pub mod Interface
pub mod Template
pub mod Tests
