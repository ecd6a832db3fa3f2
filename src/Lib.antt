-- ===== src/Lib.antt =====
-- TsmProxy: the xframe kernel, its containers, and parts of the proxy on top of it.
--
-- The program runs tasks, each in a thread of its own. A task (xframe/task/abstracttask.C) takes
-- messages from its fifo, lets its timers (xframe/kernel/timerqueue.C) put time-outs there, and sends
-- messages to the frame control (xframe/kernel/framectrl.C), whose thread gives each one to the task
-- selector (xframe/kernel/taskselector.C). The selector chooses an instance of the task that the
-- message is for and puts the message into that task's fifo. The selector and the timers keep their
-- objects in hash tables (xframe/include/comserv/unihashtable.h) and lists
-- (xframe/include/comserv/clist.h). The SIP adapter limits the calls of a second
-- (proxy/psasip/sipoverflow.C), and strings are coded by xframe/comserv/base64.C. The frame manager
-- (xframe/framemng.C) makes the instances, registers them with the selector and starts them. The HTTP
-- adapter (proxy/psahttp) parses requests and passes them to applications, and the registration
-- service (proxy/registertask) authenticates SIP users against a database.
--
-- Prelude: shared names, Boolean tests, lists over the native numbers, signed counters.
-- HashTable: CHashTable<UINT, V>, a function for each method (containsKey is contains_key). Chains,
--   Placed and Rehash have the lemmas on chains and growth, Laws, Removal and Calls the table as a map,
--   Traversal, Everywhere and Image what reads and keeps all entries.
-- Clist: CList<UINT>; Valid, Removal and Walk are about its invariant, remove, and the cursor.
-- TaskSelector: TTaskSelector, with its getTask and add in Dispatch. RoundRobin and Choice are about
--   the choice of an instance, Sending, Multicast and Broadcast about the three ways to send,
--   Instances about the loops over a task, Invariant and Steps about what always holds, Registry and
--   Shutdown about registration. Objects are kept in the tables in place of pointers to them, since
--   each is reached by one entry; what happens to a message is an entry of `log`.
-- Fifo: Fifo<Msg> and AbstractFifo. A call of getNext is given what other threads add during each of
--   its waits. Order is about the order of messages.
-- Timer: TTimer, TimerQueue and TaskTimerQueue, with the clock as an argument. Order has the
--   order of the timers, Fires is about process, Keys about the keys.
-- FrameCtrl: TFRAMEControl; Owner is about who owns a message after mainLoop.
-- FrameMng: TFRAMEManager (xframe/framemng.C), which makes and starts the instances of the tasks and
--   passes commands on. Loops is about its loops over the instances, Registered, Making and Instances
--   about Init, Starts about Run. Its queue and the post_fifo of its frame control, one object in the
--   source, are two here.
-- Task: TAbstractTask over the virtual functions of the application (Hooks); Turns is about process.
-- Overflow: COverflow; Limits has its bounds. Base64: CBase64; Characters and Roundtrip.
-- ExpireBuffer: CExpireBuffer (xframe/include/comserv/cexpirebuffer.h) as its records by age; Keys has
--   it as a map, Replace is about a push when it is full, Refresh about update, Expiry about expired
--   records, Values has the calls that hand values over. Dialog: CSIPPsaDialog
--   (proxy/psasip/sipdialogmng.C); Sides and Refresh are about its maps.
-- Chars: what the program uses of the C library on text, and the characters as numbers. atoi gives an
--   int: it stops at the ends of a 64-bit long, as strtol does, and keeps the low 32 bits. Laws has the
--   lemmas.
-- Cstr: CStr (xframe/comserv/comtypedef_vchar.C), with the encodings of text and numbers in Codes.
--   Texts is about replace and cut, Valid and Calls about the room in the buffer, Uric, Html and
--   Numbers about what the encodings read back as. Wire is a string in a message. Varchar: CVarChar8 to
--   CVarChar256, with the limit as an argument; Codec is about what they hold.
-- Http: the parser of CHttpMessage (proxy/psahttp/httpmessage.C). Feed is a machine that takes one
--   byte after the other, Rounds and Cuts compare the parser with it, Calls is about bytes that come
--   in several calls, Words, Headers and Requests are about whole requests. Replies, Argv and Dispatch
--   have the replies, the arguments for applications and what is done with a request, Client the
--   requests that the adapter sends (proxy/psahttp/hookpsahttpimpl.C); Built and Services are about a
--   request that one adapter builds and another one parses. The only call of processHttpMessage, which
--   Dispatch models, is commented out (proxy/psahttp/httpserver.C). What goes to applications is what
--   c_str() gives, up to the first NULL.
-- Register: the types and the statements of CRegCallService (proxy/registertask/RegisterCS.C), with
--   CS_REGISTER and CS_DIRECTREGISTER in Service. Access and Direct are about who may change what,
--   Digest about the authentication. cs_Auth writes into buffers of 257 and 512 bytes without a check;
--   the models say nothing of texts that do not fit (AuthFits).
-- Examples: the theorems at concrete values.
--
-- A UINT is a number below 2 ^ 32 and its arithmetic is written out where it can wrap. The loops over a
-- list or a table run on fuel: one round for each node of the list, one for each entry of the table and
-- one more. Each round moves the cursor on, and the theorems on the loops show that this is enough.
--
-- parseStream takes at most two rounds for each byte, and replace at most one for each byte of the
-- text and one more. MD5 and the database are arguments.
--
-- Not modelled: threads, locks, sockets and the clock (arguments), logging, configuration files and
-- the database driver, the copies of TinyXML, of an HTTP server example and of standard ciphers. Of
-- the proxy, the tasks around the services, the links of the HTTP adapter and the message codecs are
-- not modelled, nor are the put sequence of the hash table and the iterators of the list.
pub mod Prelude
pub mod HashTable
pub mod Clist
pub mod TaskSelector
pub mod Fifo
pub mod Timer
pub mod FrameCtrl
pub mod FrameMng
pub mod Task
pub mod Overflow
pub mod Base64
pub mod ExpireBuffer
pub mod Dialog
pub mod Examples
pub mod Chars
pub mod Http
pub mod Cstr
pub mod Register
pub mod Varchar
