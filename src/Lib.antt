-- ===== src/Lib.antt =====
-- Verification of the native code of MyToolbox: the C and C++ behind its Java classes.
--
-- The parts, and the files that model them:
--
-- MsgQueueJni (toolbox/src/main/cpp/jni_msg_queue_handler.c) hands messages from Java to a thread
-- of the library's queue and from there back to a callback in Java. `Context` is
-- msg_queue_jni_context_t, and `World` a context with the counts of what the process owns. Push is
-- pushMsg, Init is init and destroy, Thread is pri_on_msg_q_handler_status_changed and
-- handle_queue_msg; EndToEnd joins them, Order follows messages through the queue, Drain and
-- Drained let the thread finish what waits there, and Commute exchanges calls of the two threads,
-- by what Frame says that each of them touches; the macros CLEANUP_MSG and RECREATE_MSG are
-- cleanup_msg and recreate_msg. Race cuts pushMsg into its parts, so that other calls can come in
-- between: Race/Callbacks has callbacks of the queue's thread there, and Race/Unlocked a second
-- call of pushMsg. The other files under MsgQueueJni hold the invariants and the proofs.
--
-- MsgQueueHelper (toolbox/src/main/java/com/threshold/jni/MsgQueueHandlerJni.java) is the class
-- Helper, through which Java uses it: `push` is its pushMsg, with the tests in front of the native
-- one. Guards has what these tests are good for, Session and Sound the life of a Helper, Whole
-- that life from the constructor on, Listener a callback that fails, and Made the messages that
-- Java makes itself.
--
-- RingBufferJni (toolbox/src/main/cpp/jni_ring_buffer.c) gives a ring buffer to Java;
-- RingBufferJni/Fifo is a bounded queue of bytes, and RingBufferJni/Refinement relates the two.
--
-- RingBuffer (toolbox/src/main/java/com/threshold/toolbox/RingBuffer.java) and AutoCoverBuffer
-- (toolbox/src/main/java/com/threshold/toolbox/AutoCoverBuffer.java) are the classes of Java over
-- RingBufferJni and AutoCoverBufferJni; RingBuffer/Session is a program that uses one,
-- AutoCoverBuffer/Position its write position.
--
-- Lcu is the interface of the prebuilt library that MsgQueueJni, RingBufferJni and
-- AutoCoverBufferJni call, from toolbox/src/main/cpp/lcu/ring: Lcu/Handler is the queue handler,
-- Lcu/Ring is the ring buffer, Lcu/AutoCover the auto cover buffer. Their functions are fields of
-- a record, an argument of the model; what the headers document of them is a record of laws, which
-- the theorems that need it take as a hypothesis. The tests build an instance of each. Lcu/Strings
-- is the macros of lcu/mem/strings.h.
--
-- NativeResample (app/src/main/cpp/native-resample.cpp) is the resampler; NativeResample/Jni is
-- the static buffer and the function for Java, NativeResample/Strings the helpers that copy
-- strings and arrays. Samples are bit patterns.
--
-- AutoCoverBufferJni (toolbox/src/main/cpp/jni_auto_cover_buffer.c) gives the auto cover buffer to
-- Java; JavaArray holds the accesses behind a pointer into a Java array, for it and for
-- RingBufferJni.
--
-- IoHelper (toolbox/src/main/cpp/jni_io_helper.c) changes and names the working directory, over
-- the calls of the system. Assets (toolbox/src/main/cpp/jni_assets.c) gives the size of an asset
-- and counts what it borrows.
--
-- LocalSocketServer (toolbox/src/main/cpp/local_socket_server.c) is the server behind its handle,
-- its thread and the reading of a buffer. The system calls answer by arguments of the model.
--
-- NativeLib (app/src/main/cpp/native-lib.cpp) is the demo library: a switch for the log, and the
-- bytes of a Java string.
--
-- Log (toolbox/src/main/cpp/lcu/log) is the logging macros of the native code under toolbox: Log
-- itself has what they share, Log/Facade the macros of logger_facade.h, Log/Slog and Log/Xlog the
-- two loggers, and Log/Backend the headers that put them behind the facade and the choice of
-- logger.h. A family of macros, such as LOGV to LOGE, is one function of the letter; a program is
-- a list of statements. What a message prints is the format and its arguments, as they are handed
-- to `printf` or to Android. Shown and Filter say which statements have an effect, Own compares
-- the macros of a logger with those of the facade, and Disable has what _LCU_LOGGER_DISABLE does.
--
-- CommonMacro (toolbox/src/main/cpp/lcu/common_macro.h) is the conversions between pointers and
-- the handles that Java keeps, ASSERT and ASSERT_ABORT in every kind of build, RANDOM, FREE, the
-- macros that evaluate an argument twice, and the enumerations with strings. The other models take
-- a handle as the buffer or context that it stands for, or none for 0, as the round trip allows.
--
-- JniToolbox (toolbox/src/main/cpp/jni_toolbox.c) is the loading and unloading of the library,
-- over the functions of lcu.h and the logging facade.
--
-- Base holds lists and integers over native numbers, Boolean tests, and `Run`: `fault` stands for
-- undefined behaviour of C, an abort, or a call that breaks the contract of the JVM or the
-- library.
--
-- Conventions and bounds. `int` and `jint` are integers with the wrap-around of 32 bits written
-- out where the code converts; `size_t` has 64 bits. Whether an allocation succeeds is a Boolean
-- argument. Calls run as wholes, one after the other, but in MsgQueueJni/Race; while pushMsg
-- sleeps, the queue's thread may change the queue in any way. The loop over the input of resample
-- runs on fuel, one round for each sample and one more; read_buffer on one round for each byte and
-- one more; pushMsg makes four rounds at most. The theorems about them say that this is enough.
-- Formats, lengths and offsets that a theorem about the resampler or the ring buffer names are not
-- negative.
--
-- Not modelled: the log statements in the models of the other parts, but for the demo library and
-- JniToolbox; the code of the prebuilt library, and its headers for Windows, which are copies of
-- other projects; the mutex of the socket server, whose thread only reads one flag; failures of
-- NewGlobalRef and NewByteArray other than those named as arguments; the rest of the Java code.
pub mod Base
pub mod JavaArray
pub mod Lcu
pub mod MsgQueueJni
pub mod RingBufferJni
pub mod AutoCoverBufferJni
pub mod NativeResample
pub mod LocalSocketServer
pub mod IoHelper
pub mod Assets
pub mod NativeLib
pub mod Log
pub mod CommonMacro
pub mod JniToolbox
pub mod MsgQueueHelper
pub mod RingBuffer
pub mod AutoCoverBuffer
