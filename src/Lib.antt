-- ===== src/Lib.antt =====
-- A verification library of go-consensus: consensus protocols in Go behind one interface, a peer that
-- runs one of them, and a key-value store that the ordered commands run on.
--
-- The program. A protocol (peer/protocol.go) is a state machine. The peer gives it messages (Step),
-- requests of clients (Request) and the results of its workers (AsyncCallback), and takes what it has
-- to send and the commands that it has ordered (MakeReady, ClearMsgs, ClearExecutedCommands). Every
-- call is made under one lock, so a run of a replica is a sequence of calls. The applier executes the
-- ordered commands on the store and tells the tracker, which knows the client that waits for each.
--
-- The parts and their files:
--   Base             what all parts share: lists, sets and maps over native numbers, and `Outcome`,
--                    the result of a handler.
--   Command          pkg/command/commandpb: the commands, with Equal, Interferes and Hash.
--   Pbft             protocols/pbft. Messages are pbftpb. Quorum is quorum.go (log, Majority).
--                    Replica is the state of pbft.go, messaging.go (sendTo, broadcast) and the
--                    execution of instance.go (exec). Agreement is onPrePrepare, onPrepare, onCommit,
--                    stepAgreement and onRequest. ViewChange is vcquorum.go with verifyA1, verifyA2,
--                    getInstanceAtIndex and constructNewView. NewView is startViewChange,
--                    verifyNewView, processNewView and the handlers of view changes. Protocol is
--                    Step, Request, AsyncCallback and the certificates of broadcast.
--   MinBft           protocols/minbft. Quorum is quorum.go and minbftpb, Identifier the certificates of
--                    messaging.go and stepNormal, Replica the state, the messages and exec, Handlers
--                    the handlers of instance.go, request.go and minbft.go.
--   ChainHotstuff    protocols/chainhotstuff. Blocks is chainhotstuffpb, Signer the quorum certificates
--                    of signer.go. Replica is the state of chainhotstuff.go, messaging.go, and the walks
--                    along the parents (the loop of onProposeContinue, commit). Voting is block.go
--                    (propose, onPropose, onVote, updateHighQC, update, deliver), request.go and the
--                    beat of pacemaker.go. Protocol is newview.go, onTimeout, NewChainHotstuff, Step,
--                    Request, AsyncCallback and the workers.
--   Peer             Timer is peer/timer.go, Tracker pkg/command/tracker.go, Applier the store and
--                    handleExecutedCmds of peer/applier.go. Interface is peer.Protocol with the messages
--                    and the output it exchanges. Buffer is peer/req_buf.go. Node is peer/peer.go with
--                    the queues and goroutines of applier.go, around any peer.Protocol: Node/Runs has
--                    its steps, Node/Pending and Node/Order what reaches the store, Node/Clients,
--                    Node/Accounts and Node/Replies what reaches the clients.
--   Rcc              protocols/rcc/rcc.go, over any instances of peer.Protocol. Rcc is NewRCC, the methods
--                    and MakeReady; Replicators is PBFT as an instance.
--   DqPbft           protocols/dqpbft. Messages is dqpbftpb, Quorum is quorum.go. Replica is the state of
--                    dqpbft.go, messaging.go and exec.go, Ordering is oinstance.go, Agreement is
--                    cinstance.go and request.go, Protocol is Tick, Step, Request, AsyncCallback and
--                    MakeReady.
--   Tests            the theorems at concrete inputs, and runs of the code.
-- The modules below a component hold its proofs: Pbft/Quorum/Certificates, Pbft/Agreement/Invariant,
-- Pbft/Protocol/Reach, MinBft/Sound, MinBft/Reach, MinBft/Order, MinBft/Agreement, MinBft/Faults,
-- DqPbft/Exec, DqPbft/Orders and the like.
--
-- How the code is modelled:
--   * A handler is a function from the state to an `Outcome` of the state. `fault` stands for Panicf,
--     Fatalf, panic, a nil dereference and an index out of range, all of which end the process.
--   * An optional pointer is an `Option`. A shared instance is read from the log and written back.
--   * A map is an association list; where Go runs over a map in any order, the model runs in the order
--     of the list, or in RCC in an order that is an argument. int and uint64 are natural numbers, and
--     what can wrap is written out modulo 2^64. `p.f` and the lengths are far below 2^63, and fewer than
--     2^31 commands wait for the buffer of a peer. The list of nodes is not empty.
--   * A message travels as a value: that it is marshalled and unmarshalled is left out. The codec of
--     commands, sha256, the digest of a view change, the certifiers and the enclave are parameters,
--     fields of `Codec` and of the records `Env`.
--   * The dispatcher of pkg/worker is a list of jobs. `work` lets any job finish next, and its callback
--     then waits in the channel until AsyncCallback runs it, so all orders of the workers are covered.
--   * `exec` of these protocols is recursion on fuel, the number of entries of the log. It is enough
--     since in Pbft a round takes a command out of the log, in MinBft a round goes on to a higher
--     slot, and in DQPBFT a round executes a committed o-instance.
--   * The walks of ChainHotstuff along the parents are recursion on fuel, one more than the number of
--     stored blocks. A walk that does not end in it does not end at all, and is a `fault`: there is no
--     state after it. The hash of a block, the signatures and VerifyBatch are fields of `Env`.
--   * The loop of verifyNewView over the indices is not modelled for a highest index of 2^64 - 1, where
--     it does not end.
--   * A channel of the tracker is a number, and what is sent on the channels a list.
--   * A run of a peer is a sequence of steps, each of which the code makes under the lock: a turn of the
--     loop of Run, a tick, a call of the transport, a retry of a woken add, and one packet or event of a
--     goroutine of the applier. Any step may be next, so all interleavings are covered. A queue that is
--     full leaves the state as it is, and the step is tried again. The signal channel is left out: a
--     turn may start at any time.
--
-- Left out: logging; Tick of PBFT, MinBFT and ChainHotstuff, whose sets of timers stay empty; the
-- Callback methods, which only panic or do nothing; the Stop methods of the protocols, which release the
-- certifier; the check in addVCMessage that the pointer just stored is found again; that Hash of a
-- command loses the trace when the command cannot be marshalled; Instrument of the timers; Pause of the
-- applier, which nothing calls, and the stop events of its goroutines; that a result may fail to be
-- marshalled for a callback; the text of the reply to a client.
-- Not modelled: the other protocols (hybster, linhybster, hybsterx, the SBFT family, prime, dispel,
-- mirbft, duobft, multichainduobft), most of which repeat the agreement and the execution of the ones that
-- are modelled with other quorums and certificates; the gRPC transport, the command lines and the
-- experiment runner, which are input and output; the enclaves in C++, the certifiers and signers, which
-- are parameters; generated and vendored code.
pub mod Base
pub mod Command
pub mod Pbft
pub mod MinBft
pub mod ChainHotstuff
pub mod Peer
pub mod Rcc
pub mod DqPbft
pub mod Tests
