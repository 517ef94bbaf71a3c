-- ===== src/Lib.antt =====
-- ZppAdapter: a C++ library over zsi, libzmq, nng, libevent, rapidjson and database clients. This
-- development models the classes that carry logic of their own. They are templates and thin classes that
-- an application combines; they meet in the routed messages of zmq (MsgStack, RoutePath, Socket), and the
-- timers and the queue stand for themselves. What the program takes from other libraries is an interface
-- with the laws that its documentation gives: Zsi.Semaphore, Zmq.Libzmq, Zmq.Conns.Sockets, Json.Rapid,
-- Json.Doc.Texts, Pb.Protobuf, Sqlite.Library, ZppJson.Ordered, Objects.Atomics.
--
--   Zsi, Zsi/Counting      error codes and the semaphore of zsi, and a semaphore that is a number
--   Std                    std::map and std::set as sorted lists, and what they ask of a key, the
--                          order of strings, and lists of pairs in which the order counts
--   MsgQueue               zpp/base/msg_queue.hpp, MsgQueue: Push and Pop as whole calls; Fifo compares
--                          them with one queue; Threads has their single accesses as a step relation,
--                          with what holds in every order (Kept), without an exchange in between (Calm),
--                          and what the missing lock allows (Race)
--   PoolRing               zpp/base/msg_queue.hpp, MsgPoolRing: constructor, PreAlloc, Alloc, Free,
--                          destructor; Spare and Calls compare it with a bounded queue
--   AsyncTimer, SyncTimer  zpp/base/timer.hpp
--   OwningMap              zpp/base/map.hpp, with what the helpers delete
--   Zmq                    zpp/zmq.hpp, Message, and libzmq as an interface; Zmq/Stack is MsgStack,
--                          Zmq/Route RoutePath (Hops has CalcRoute and RotateRoute,
--                          Swaps the exchange of messages), Zmq/Wire the Send
--                          and Recv of Socket, Zmq/Conns its connections and Reconnect (zpp/src/zmq.cpp),
--                          Zmq/Pirate LazyPiratReq, Zmq/Monitor MonitorEvent
--   Rest                   zpp/event2/rest.h and zpp/src/rest.cpp: IsResource, RestServer::Run and Stop;
--                          Rest/Serve has ParseReq and the answers of OnApiGeneral and of rest_gencb,
--                          Rest/Client the headers and the wait of DispatchJson, and what the client is
--                          left with after the server's answer
--   Json                   zpp/json_rapid.hpp, RJson: setters, getters, members; Json/Each the walk;
--                          Json/Doc reading and writing text and files, Json/Handle what the
--                          constructors allocate and the destructor deletes
--   ZppJson                zpp/json.h, class json over the same rapidjson: Sets has the members, Arrays
--                          the elements, Loads the text
--   Pb                     zpp/src/pb2json.cpp, with protobuf as an interface: Pb/Load is Json2pb, the
--                          callback of Json/Each with its stack, against what a document means
--                          (Meaning); Failing has the documents that are refused and those at which
--                          the behaviour is undefined; Pb/Save is Pb2json (Parts puts the saved
--                          fields together)
--   Objects                zpp/obj.hpp, zpp/object.hpp, zpp/base/object.h and zpp/src/object.cpp: Counts
--                          has the references of an object, Creators the creators by type
--   Event2                 zpp/event2/core.h and zpp/src/event2_core.cpp: what the wrappers of libevent
--                          free, and the times that they hand over
--   Sqlite                 zpp/sqlite3.h, with sqlite as an interface: Owned has the handles over any
--                          calls, Bound what Prepare leaves to the calls after it
--   Reply                  zpp/nng/reply.h and zpp/src/reply.cpp: the tasks of the reply server
--
-- State is a record and an operation a function from the state to its result and the new state. An error
-- code is a value of Err. Where the source leaves an access undefined (the front of an empty queue, an
-- index out of a vector, a NULL pointer) the result is none. Memory that cannot be had, results of
-- libraries and the time are arguments. What a destructor or an operation closes or deletes comes back as
-- a list. An int or a byte that can wrap has its wrap-around written out: the index of MsgPoolRing modulo
-- 2 ^ 32, the hop count of CalcRoute modulo 2 ^ 8; strings and messages are lists of bytes.
--
-- Loops recur on a list where they can. The loop of MsgPoolRing's constructor has its argument as fuel,
-- which is enough since each round clears a bit. The loops of Recv have fuel for their rounds, and as many
-- rounds as the message has parts are enough. The loop of Rotate has the length of the vector. The walk of
-- ForEach has fuel for the depth of its calls, and Json.Each.Ends gives an amount that is enough. Pb2json
-- has fuel for the nesting of messages, and Pb.Save.RoundTrip gives what is enough.
--
-- Not modelled: output (Dump, traces), the event loops, what only passes its arguments on to another
-- library, and the wrapper of MySQL.
pub mod Prelude
pub mod Zsi
pub mod MsgQueue
pub mod PoolRing
pub mod Std
pub mod AsyncTimer
pub mod SyncTimer
pub mod OwningMap
pub mod Pb
pub mod Zmq
pub mod Rest
pub mod Json
pub mod Reply
pub mod Sqlite
pub mod ZppJson
pub mod Objects
pub mod Event2
