-- ===== src/Lib.antt =====
-- Models of the programs of a systems programming course, with the theorems that make them correct.
--
-- Hunt is MP3, the hunt for treasures: MP3/server/boss.cpp hands out ranges of bytes to miners
-- (MP3/client/miner.cpp), which look for texts that, behind the mine, give an MD5 digest with one more
-- zero at the front. Hunt.Boss has a module for each part of the boss: its state (State), the
-- configuration (Configure: load_config_file), hashing the mine (Loading: MD5), giving out jobs (Jobs:
-- assign_jobs), treasures (Treasures: handle_treasure), commands (Commands: handle_command), dumps
-- (Dumps) and the main loop (Serve). Hunt.Miner is the miner, Hunt.Protocol what goes through their
-- pipes, Hunt.Digest the count of zeros and Hunt.Md5 the interface of the MD5 library, a parameter.
--
-- Loser is MP1/main.cpp, version control of a directory in the file .loser_record: Files (List_File),
-- Record (fetch_record), Commit (the text of a commit), Compare (Compare) and Commands (the rest up to
-- main). A directory is its names and the digests of its files; md5() is a parameter.
--
-- Bonbon is MP4, a chat server that joins two users if each one's filter function accepts the other:
-- Protocol (MP4/protocol.hpp), Child (MP4/child.cpp: child_process and match) and Server
-- (MP4/inf-bonbon-server.cpp). The server hands each user to one of 20 children to match and to the
-- others to queue; the children report, and the first report on two users who still wait joins them.
-- The JSON library (Json) and the filters are parameters.
--
-- Box is MP2, a client that keeps a directory in step with a server. Box.Table is MP2/src/hash.c,
-- whose functions MP5/src/hash.c has too; Box.Table.Iterator has what is new there, and Box.Pool the
-- threads of MP5/src/thread.c, over schedules of their steps. Box.Daemon is MP5/src/csiebox_server.c:
-- the requests of one connection, with the system calls as a parameter of their own (Host); Configure is
-- its parse_arg, and Startup csiebox_server_init, with a parameter of its own (Disk), and sig_handler. Box.Names
-- is get_dir_and_name of MP5/src/csiebox_common.c. Box.Config is parse_arg of both programs,
-- Box.Account get_account_info, Box.Protocol the messages (MP2/include/csiebox_common.h,
-- MP2/src/csiebox_common.c), Box.Posix the system calls and MD5, which are a parameter, with what they
-- promise. Box.Server is MP2/src/csiebox_server.cpp for one connection: the handlers, login and the
-- loop of handle_request; Accepting is csiebox_server_init and csiebox_server_run, one connection
-- after the other. Box.Client is MP2/src/csiebox_client.cpp: what is sent, and what is made of
-- a response; Traverse has the walk of the tree, as a list of actions, and Events what an event of
-- inotify has the client do. Box.Exchange puts both together: the client sends, the server handles
-- what was sent, and the client takes the response; Run performs the actions and is
-- csiebox_client_run. A connection carries headers and bytes in pieces; the layout of the structures
-- in bytes is left out, and so are lost connections.
--
-- Box.Ports is MP5/src/port_register.c, which gives ports to names, by rounds of its main loop; Codes has
-- what differs in MP2/src/port_register.c, and Start server_start and client_start of
-- MP5/src/connect.c. Box.Monitor is MP5/src/csiebox_client.c: what is sent for a file or a removal, the
-- watches, and convert_to_relative_path with the memory that it works on (Relative); Walk is sync_all,
-- Events handle_inotify, Session parse_arg,
-- csiebox_client_init and csiebox_client_run, and Delivery the client and Box.Daemon together.
--
-- Box.Crowd is the MP5 server over all connections: the rounds of csiebox_server_run, choose_thread and
-- server_thread_func as steps of the main thread and of the threads of the pool, in any order.
--
-- Counting is MP0/char_count.cpp, which counts the characters of a set in each line.
--
-- Tests holds concrete inputs for the theorems.
--
-- State is passed explicitly; what select() and the reads bring is the event of a round, and what
-- is written is a list of outputs. A fault (a read or write past a buffer, a missing delimiter, a
-- division by zero) is none, but for the '\0' that Hunt.Boss.Loading names. Numbers are natural
-- numbers; the size of the mine and the sums over it in Loading are ints, and other counts are
-- taken to stay below 2 ^ 31. A name that fills its field of 30 bytes is none in MP2's login; in
-- MP5's it is taken to end within the field. What a refused request of MP5 leaves unread is read
-- on, as a parameter says (reread). A loop of the program is structural recursion, or recursion on
-- fuel: one more than the number of bytes, pieces or nodes that a loop goes through, since each
-- round goes on by one at least; the loop over descriptors has 1200, the size of the arrays. Not
-- modelled are the set-up of pipes, sleeps and waits, and what a failing system call does where
-- the program ends at once; of MP2 and MP5 the set-up of sockets.
pub mod Base
pub mod Hunt
pub mod Loser
pub mod Tests
pub mod Bonbon
pub mod Counting
pub mod Box
