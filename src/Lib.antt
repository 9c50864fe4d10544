-- ===== src/Lib.antt =====
-- Verification of the core of `avserver`, the audio and video server of an IP camera (src/*.c and
-- inc/*.h of the repository). One process captures video through an encoder driver, hands frames to
-- an RTSP library, and runs a control server, a recorder and a peer-to-peer link beside it. The
-- centre is src/rtspd.c: threads ask it to start, update and stop bitstreams
-- (`env_set_bs_new_event`), its loop `enq_thread` serves the requests (`bs_new_event`) and moves
-- encoded frames (`do_poll_event`), each frame in a slot of its queue's pool until the RTSP library
-- gives it back; audio goes through a byte FIFO for each channel.
--
-- Base: the names that the modules share, Boolean tests, lists measured by native numbers, and
--   the C `int` as an integer (Base/Int).
-- Frame: the pools of frame slots, `frame_info_t` with `add_to_list` to `put_video_frame` (rtspd.c
--   918-1071), on an explicit heap where a null or dangling pointer faults. Frame/Dll says what a
--   doubly linked list on that heap is, Frame/Pool what a pool is, and Frame/Run compares sequences
--   of calls with a pool of two plain lists. Walks over a list take fuel; one more than the
--   number of slots is enough. Each function runs under the queue's mutex, so that it is one step.
-- Audio/Fifo: `struct Audio_data`, `adata_fifo_in` and `adata_fifo_out` (rtspd.c 200-210, 380-457).
-- Stream: the bitstreams. Types has the records of inc/rtspd.h and the file's variables; Env the
--   encoder driver, the RTSP library and mmap as a record of functions of a world; Param what the
--   encoder is told; Control and Bitstream `open_bs` and `close_bs` with all that they call; Events
--   the requests and the event loop; Update the staged changes of a configuration,
--   Direct those that are sent at once. A command is a
--   function from the state to a result and a state. The number of bitstreams of a channel,
--   DVR_ENC_REPD_BT_NUM, belongs to the driver and is a field of Env. Start and Config have the
--   variables at the start and what `env_cfg_init` reads into them, one channel at a time.
-- Live: a buffer of the encoder on its way (rtspd.c 2569-2635, 2702-2844, 3280-3291): got, written to
--   the RTSP server in a slot of the pool of Frame, given back by `frm_cb`. The world of its streams is
--   the pools and a record of the calls. Live/Buffers counts each buffer. Live/Poll has the poll of the
--   driver and the snapshot (2846-2884, 3162-3253), Live/Streams the commands of the server
--   (3349-3403). The pointer `free` of a stream is only ever NULL, and is left out.
-- P2p: the peer-to-peer link, src/p2p.c: the table of clients, the commands of a session, the frames;
--   P2p/Runs has the threads in any order. Each command, each end of a session and each frame is
--   one step.
-- Clock: RTP and audio ticks, differences of ticks, the wait of the poll loop, and the type of a
--   NAL unit (rtspd.c 166-200, 736-744, 1199-1232, 2681-2701, 3195-3220).
-- Server: the table of clients of the control server, `arrClient_fd` of src/av_server.c 34-181.
-- Startup: the files that `init_system` reads, and `do_reset` (src/init_system.c 40-104, 186-214). The
--   loop of the reset takes fuel, as the code has no bound for it.
-- Infrared: the thread of src/infrad_ctrl.c with the variables of src/av_globle.c: day and night
--   pictures, and the reset key.
--
-- Isp: the image processor, src/isp.c. The device is a record of calls, one register for each pair of
--   a getting and a setting ioctl. Isp/Image has the picture, Isp/Balance exposure and white balance,
--   Isp/Start the opening; Isp/Controls puts the functions that set one register under one index.
-- Message: the messages that change the configuration, `processMsg` of src/processMsg.c. Vars has the
--   variables of the configuration and their files, Keys the keys, Session the local variables, the
--   answer and the calls that are made. Most cases have one shape, a row (Message/Row): Encode,
--   Quality, Picture, Network, Alarm, Mail and System list the rows, Act the other cases, and Process
--   the loop and the end of a message. Filed and Range say of each row which file it marks and what it
--   stores, Induct carries such facts over a whole message. Preset has the presets of the pan-tilt
--   head: setting, showing, going to and deleting one.
-- Sd: the card files, src/sd_file.c, with the loop of src/avi_save.c that frees space: the search for
--   the oldest directory (Sd/Search) and deletion on a tree (Sd/Delete),
--   with the length of each path and the directories that stay open.
-- Recorder: src/avi_save.c: its messages, the sizes of a file, the rounds that fill a file, and its
--   control server, which runs the rounds of Server.
--
-- Numbers of type `int` are unbounded integers, where the code's sums stay far from the bounds;
-- ticks wrap at 2^32 as in C. Mutexes, prints and the copies of frame data between buffers are left
-- out. Interleavings within a call are left out too: `env_set_bs_new_event` and `bs_new_event` each
-- run as one step. Of the rest of the program, the settings of the network and of the clock in
-- src/init_system.c, and src/main.c, which starts the threads, are left out. Of src/p2p.c the prints
-- of errors, the login of the device and the start of the link library are left out; of a command's
-- buffer the model has what the code reads. Of src/avi_save.c the calls of the AVI library, of
-- src/sd_file.c the making of directories are left out. Of src/processMsg.c these are left out: the
-- users, the list of the presets, how a message reaches a preset, the speeds of the pan-tilt head, the
-- MAC address, the protocol and the snapshot switch, and the functions that set a whole structure. A
-- message is taken as the pairs that ParseVars makes of it, of the keys that are modelled, with what
-- `atoi` makes of each value; the room of the answer is not modelled. The numbers of the keys, the
-- layout of the configuration and the sizes of its arrays and fields stand in headers outside the
-- repository. The code tests neither an index nor the length of a text: a flag of the session says
-- when one goes outside, and the variables of the model stand for those of the code only without
-- it. A reset during a message takes its readings to work. What the control server answers,
-- and the descriptors that `select` reports, are free inputs of its model.
pub mod Base
pub mod Frame
pub mod Audio
pub mod Startup
pub mod Stream
pub mod Clock
pub mod Infrared
pub mod Server
pub mod Isp
pub mod Live
pub mod Message
pub mod P2p
pub mod Sd
pub mod Recorder
