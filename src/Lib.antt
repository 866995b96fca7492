-- ===== src/Lib.antt =====
-- mpd, a PPP daemon: the negotiation machine that its protocols share, and the data that they work on.
--
-- The daemon brings PPP links up. LCP, IPCP, IPV6CP, CCP and ECP are layers over one state machine,
-- the automaton of RFC 1661; a layer is a record of handlers. The machine's timers come from an
-- event library, its packets are buffers with room in front for headers, peers get addresses from
-- named pools, and CCP may compress packets with Predictor type 1, whose frames end in a check sequence. A link
-- that LCP has opened authenticates itself, its peer or both by PAP or CHAP, and tells LCP the result.
--
--   Common            tests, lists and words of fixed width that all parts share
--   Timer             src/timer.c: a timer is what the event library has registered for it
--   Fsm.Types         src/fsm.h: struct fsm is `Machine`, struct fsmtype is `FsmType`
--   Fsm.Options       src/fsm.c: FsmConfValue, FsmExtractOptions, FsmAck, FsmNak, FsmRej
--   Fsm.Core          src/fsm.c: FsmInit, FsmNewState, FsmOutput, the layer calls, the Send functions
--   Fsm.Events        src/fsm.c: FsmOpen, FsmUp, FsmDown, FsmClose, FsmFailure, FsmTimeout
--   Fsm.Receive       src/fsm.c: the handlers of Configure and Terminate packets
--   Fsm.Link          src/fsm.c: the handlers of all other packets, FsmCheckMagic, FsmEchoTimeout
--   Fsm.Input         src/fsm.c: FsmInput and the table FsmCodes
--   Fsm.Step          the machine in the event loop: one step for each call from outside
--   Fsm.Rfc           the transition table of RFC 1661, written from the RFC and not from the code
--   Fsm.View          an abstract machine: state, counters, timer, number of layer calls
--   Fsm.Carry         what a layer keeps in step with the state of its machine, over every event
--   Lcp               src/lcp.c, src/lcp.h: Lcp.Phase has LcpNewState, LcpNewPhase, LcpAuthResult and the layer
--                     handlers, Lcp.Request LcpConfigure and LcpBuildConfigReq, Lcp.Reply the tables,
--                     Lcp.Cases and Lcp.Decode LcpDecodeConfig, Lcp.Layer gLcpFsmType and LcpRecvProtoRej
--   Vars              src/vars.c, src/vars.h: Enabled, Acceptable, FindOpt, Do and the commands
--   Ip                src/ip.c: IpAddrInRange, u_addrcompare, in_addrtowidth, widthtoin_addr
--   Ipv6cp            src/ipv6cp.c: Ipv6cpInit, Ipv6cpDecodeConfig and the other functions of gIpv6cpFsmType
--   Ipcp              src/ipcp.c: Ipcp.Layer has IpcpConfigure, IpcpUnConfigure and the other functions of gIpcpFsmType,
--                     Ipcp.Decode IpcpDecodeConfig, in the build with USE_NG_VJC; the pools are those of Ippool
--   Input             src/input.c: InputFrame by the phase of a link, with LCP on its machine; the call of itself
--                     through InputMPLink takes fuel, and the size of a pointer is a parameter
--   Auth              src/auth.c, src/pap.c, src/chap.c: Auth.Core has what both protocols share, Auth.Pap and
--                     Auth.Chap what is sent and judged, Auth.Hash the hashes of CHAP, Auth.Async the thread that
--                     asks the backends, Auth.PapInput, Auth.ChapInput and Auth.Input the packets, Auth.Secrets
--                     AuthGetData, which the other functions take as a parameter
--   Ippool            src/ippool.c: IPPoolGet, IPPoolFree, IPPoolAdd, and the sizes of Malloc (src/mbuf.c); the size of
--                     a pointer, and the sizes for which `malloc` gives memory, are the parameter `Memory`
--   Crc               src/util.c: Crc16
--   Pred1             src/ccp_pred1.c: Compress, Decompress, SyncTable; Pred1.Frame has Pred1Compress,
--                     Pred1Decompress and the resets
--   Mbuf              src/mbuf.c: mballoc, mbread, mbcopy, mbcopyback, mbtrunc, mbadj, mbsplit
--
-- A function that changes a structure is a function from the structure to the structure. A handler
-- of a layer acts on the layer's state alone, and a call that goes back into the machine, such as
-- FsmFailure from a LayerUp, is the next step. What the machine does to the outside is its list of
-- actions. A short is its bit pattern in 16 bits, an unsigned byte is taken modulo 256. A failing
-- assertion sets `aborted`. LCP acts on its link alone: its calls of authentication, of the bundle, of the
-- physical layer and of its own machine are recorded, and what they lead to is the next event of
-- the link. The machine of LCP has the settings that LcpConfigure makes from its beginning on. What C
-- leaves undefined is a parameter or no value. The bytes of an uninitialised variable or of fresh memory are parameters.
--
-- Of authentication the hashes, the lines of the file of secrets, `random`, the actions of a link, the other backends and
-- whether a thread starts are parameters; the thread's end is a step. It is the build with PAM and the accounts of
-- the system and without OPIE. A name of a bundle is that of a bundle that is open. Accounting is left out.
--
-- The loops of Compress and Decompress run on fuel: the number of bytes of the source, of which
-- each round takes one at least. The loop over options takes as fuel its bound of 100 options.
--
-- Not modelled: the messages to the log, the netgraph nodes, the console and the link types, which are calls of the
-- system; EAP and RADIUS, which hand packets to CHAP or to a library; the control connections of L2TP and PPTP; the
-- joining of links in bundles; the layers other than LCP, IPCP and IPV6CP, which are the parameter `FsmType`; the
-- blocks under RESTART_OPENED, RESTART_CLOSING and RESTART_STOPPED, which no build defines; and the
-- build with USE_NG_PRED1, in which the kernel compresses. An mbuf of the machine and of Predictor is
-- the list of its bytes. Sizes of buffers are far below the
-- range of int.
pub mod Common
pub mod Timer
pub mod Fsm
pub mod Ippool
pub mod Crc
pub mod Pred1
pub mod Mbuf
pub mod Vars
pub mod Lcp
pub mod Ip
pub mod Ipv6cp
pub mod Input
pub mod Auth
pub mod Ipcp
