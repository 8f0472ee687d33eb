-- ===== src/Lib.antt =====
-- A verification library of the replication service under paxos/ and of the file store under ofs, of its master
-- first of all.
--
-- The service keeps one data set on every server of an ensemble. The servers elect a leader
-- (paxos/election), the followers bring their data sets up to the leader's (paxos/paxos/follow.cpp and
-- FollowHandler of lead.cpp), and the leader then turns requests into drafts, one of which at a time is
-- proposed, voted on and committed (paxos/paxos/lead.cpp). Proposals and commits end in the data set and
-- its log files (paxos/transaction/dataset.cpp); a request waits in the executor for its answer
-- (paxos/paxos/service.h). The master of the file store keeps the tree of directories and files
-- (ofs/master/file), the users with their logins (ofs/master/user), and for each block of a file its
-- replicas on the data nodes (ofs/master/block). A client's request acquires the user of its token, runs
-- on the tree or on a block, and releases the user; the data nodes report their replicas, from which the
-- master chooses the one that has the lease to write. A data node keeps each block in a file and sends it
-- to another node when the master asks for it (ofs/node/block).
--
--   Prelude    lists, integers, association lists and 32-bit shifts that the parts share.
--   Election   paxos/election: `Vote` is the vote and its order; `Tally` is IsVoteOk and CheckLeader;
--              `Look` is LookForLeader and Echo; `Frames` is the cutting of the byte streams in
--              VoteReciver::DealNetPacket and VoteSender::DealPingpong; `Liveness` is BrocastVote and the
--              pings and timeouts of VoteReciver.
--   Dataset    paxos/transaction/dataset.cpp: `Files` is SaveLogData and TruncFile on files, `Core` is
--              Propose, Commit, Flush, Trunc, Snap and the application of a bill, `Load` is Load and
--              LoadLogData; `Replay` and `Order` are about the log and the state.
--   Service    paxos/paxos/service.h: PushRequest, PopRequest, ClearRequest.
--   Lead       paxos/paxos/lead.cpp: Propose, AckPropose and LaunchNextDraft; `Epoch` is GetPeerEpoch,
--              WaitForNewLeader, Process and the registration of followers; `Handler` is
--              FollowHandler::Start and Process, and `Term` is Leading.
--   Follow     paxos/paxos/follow.cpp: Propose, RegisterToLeader, SyncWithLeader and ProcossPropose; `Sync`
--              is FollowHandler::SyncFollower of lead.cpp.
--   Server     paxos/PaxosImpl.cpp: Elect, DoTransaction, and the loop over elections, leaderships and
--              followings.
--   Ofs        ofs/master: `Ids` is OfsId.h; `Tree` is Node, File and Directory, with `Paths` for the
--              paths, `View` for what a client can see, and `Gc` for StartGC; `Sizes` is the arithmetic of
--              FileSystem.h; `Users` is UserManager; `Blocks` is Block; `Cluster` is DefaultDataCluster;
--              `Nodes` is the registration and the heartbeats of data nodes; `Master` joins them in
--              ClientService and DataNodeService; `Copies` is the way in which a data node copies a block
--              to another one, in Block and BlockCopyToAction of ofs/node/block; `Access` is Read, Write
--              and Append of that Block, with the loops of olib/src/random_access_file.cpp, whose calls of
--              pwrite64 are an argument.
--
-- A method is a function of the object's state, which is a record with the members as fields. What it
-- sends, resumes and throws is part of the result. The network, the clock, the disk, `rand` and the
-- client's transactions are arguments: a loop that polls a channel or reads a socket is a function of the
-- list of what it polls or reads, so that a theorem on all lists is one on all orders in which messages
-- come. Locks are not modelled except `guard` of the leader's drafts, which is unlocked too often; every
-- other method runs as a whole under its mutex.
--
-- Ids of proposals, requests and servers are natural numbers; ids and epochs of votes are integers, since
-- -1 is used for some. Machine integers do not wrap around here, except in a message header, whose size is
-- a signed 16-bit word in little-endian order, and in the upper half of an id, whose bounds the theorems
-- state, and in the shifts, masks and sizes of ofs/master. The scan of a buffer takes fuel: each message
-- is at least one byte long unless its size is 0, so as many rounds as there are bytes are enough, and
-- size 0 does not end. The search for a snapshot in Load takes fuel for its attempts, of which one is
-- enough if it succeeds. A chunk of a stream is what `hn_recv` returns, and one that is longer than the
-- free part of the 1024 bytes of the buffer is no run of the program. Values that the source reads without having set them, the local `n` of LookForLeader and
-- `logs[-1]`, are arguments too.
--
-- The tree of ofs/master is a value: a pointer to a node is the path by which it is reached, a pointer to
-- a user is its name, and a pointer to a data node is its id. Names and texts are lists of bytes. Ticks of
-- the clocks, ids of files and versions stand as numbers, with the masks and shifts of OfsId.h and Block.h
-- written out. `rand` is a number for each place of a call, `shuffle` an order of a list; `authority` is
-- the pattern of its 16 bits. A path is taken apart with one round for each byte and one more, which is
-- enough. Reference counts are numbers that are not lowered below 0.
--
-- Not modelled: listening and connecting, which are calls of hnet; the archive format of a bill, which the
-- client reads through hnet; the parsing of the configuration; the scheduling of coroutines, of which only
-- the order of resumptions is kept; the notes that tell data nodes of their neighbours; and the reference
-- counts of blocks, which a request takes and gives back; that of a file is a field that only StartGC
-- reads. Of the data nodes, the services for clients and for the master, the scan of the files at the start
-- and the time of a lease are not modelled; a copy is sent and received in order, without failures.
pub mod Prelude
pub mod Election
pub mod Dataset
pub mod Service
pub mod Lead
pub mod Follow
pub mod Server
pub mod Ofs
