-- ===== src/Lib.antt =====
-- A verification library for SecMon, the security monitor of src/SecurityMonitor.cpp: cameras are watched by
-- scenes, each with a pipeline of image processing, and the pictures are published to browsers as
-- streams of JPEG frames by a small HTTP server.
--
-- The parts and their files (paths of the program from the repository's root):
--   * Prelude: numbers with Boolean tests, lists measured by them, integers, results of code that may
--     throw, and texts as lists of byte values. `codes` turns a literal into its bytes.
--   * Http, src/GUI: Http/Request (Request.h, Header.h), Http/Parser (RequestParser.cpp, one clause of
--     `consume` for each state; `parse` is the loop of RequestParser.h), Http/Reply (Reply.cpp),
--     Http/MimeTypes (MimeTypes.cpp), Http/Handler (RequestHandler.cpp) and Http/Connection
--     (Connection.cpp). Http/Parser/Grammar is an independent description of the requests that are
--     accepted, Http/Reply/Reader a reader of responses.
--   * Stream, src/GUI: Stream (Stream.cpp), Stream/Directory (StreamDirectory.cpp) and Stream/Connection
--     (StreamConnection.cpp). Stream/Connection/Runs has the runs of one viewer's connection.
--   * Pipeline, src/Pipeline: Pipeline (Pipeline.h) and Pipeline/WorkWrapper (WorkWrapper.h,
--     TimedWorkWrapper.h). Pipeline/Runs has the runs of a pipeline and the exceptions that can end them,
--     Pipeline/Stats the timer of its
--     statistics, Pipeline/Stats/Runs the runs with rounds of that timer in between, and
--     Pipeline/Components the elements that call objects with a state (Component.h).
--   * Frame (Frame.cpp), with Frame/Slots and Frame/Names: the named images of a frame.
--   * Scene (Scene.cpp) and SceneMonitor (SceneMonitor.cpp): scenes over pipelines, and the scenes by name.
--   * Image: rectangles; Image/Roi and Image/Regions (ImageProcessing/ROI_Detector.cpp) find and
--     consolidate regions of interest, Image/Movement (ImageProcessing/MovementDetectorBasic.cpp) compares
--     frames, Image/BackgroundSubtraction (ImageProcessing/MovementDetectorMOG2.cpp) compares them with
--     a background, Image/Processor (ImageProcessing/ImageProcessor.cpp) joins movement and regions, and
--     Image/Ooi (ObjectProcessing/OOI.cpp) is an object that is followed.
--   * OoiProcessor (ObjectProcessing/OOI_Processor.cpp): the objects by number.
--   * Camera and ImageSource (ImageSource/Camera.cpp, ImageSource/ImageSource.cpp): where frames come from.
--     ImageSource/Cycle has a capture that plays a file.
--   * PerformanceMonitor and PerformanceMetrics (PerformanceMonitor.cpp, PerformanceMetrics.cpp): samples of
--     the operating system, and the texts made of them.
--   * GuiInterface (GUI/GUI_Interface.cpp), with Http/Server (GUI/HTTP_Server.cpp): the servers.
--   * SecurityMonitor (SecurityMonitor.cpp): `main` from the GUI to the end of its `try` block, with the
--     commands from the keyboard. SecurityMonitor/Sessions has the sessions of the program, in which
--     pipelines run and web socket connections open and close, and the ways in which a session ends.
--   * ScenePublisher (ScenePublisher.cpp): which images of a frame go to which streams.
--   * WebSocketServer (GUI/WebSocketServer.cpp): the set of connections.
--   * Examples: the theorems at concrete inputs.
--
-- How they interact: a scene opens its image source, puts the elements of its pipeline together,
-- registers the streams of its publisher with the GUI, and calls `pause` and `change_timer`; a
-- monitor calls its scenes. Http/Connection calls the parser on every read and the handler on a
-- request that is complete; the handler hands a request for a stream to the directory, and the
-- directory registers the connection with its stream, which then starts a Stream/Connection. The
-- directory is passed through as state. Asynchronous calls are part of the state: a handler that is
-- posted to a strand, a write that is under way and a wait of a timer are entries of queues, and a
-- step relation says which may happen next.
--
-- Numbers and bounds: a character is a number below 256, and `char_to_int` is its value as a signed
-- char. The version of a request and the result of `stoi` keep their wrap-around or range written out.
-- The read loop of the handler runs on fuel, one more than the size of the file, which is enough since
-- every round reads at least one byte. The outer loops over rectangles run on the number of rectangles,
-- which is enough, since every round leaves fewer to look at; the loop over the lines of the statistics
-- runs on the size of the last queue and one, since every round takes one from it; the count of
-- processors runs on the size of the file, since every line has a character. Coordinates of rectangles
-- are unbounded integers: those of images are far from the limits of `int`. Vectors and strings are
-- taken to be as long as memory allows.
--
-- Not in the model: the file system is a function from names to contents, the clock gives numbers,
-- and the functions that the elements of a pipeline call are parameters that see all they were
-- called with before, and may throw: an exception that leaves a handler ends the program, and with
-- it the run. `do_work` of a pipeline is one step. OpenCV is a parameter: the content of images,
-- their encoding, the contours that it finds, which images it converts and compares without an
-- exception (its other calls are taken to throw nothing), the intersection and the area of
-- rectangles. So are the division of two areas as doubles, of which it is used when it comes to 100
-- percent; the period of a scene's timer, the capture of a camera, the percentage of processor
-- time, and `std::sort`, whose order of equal elements is open. Where the program hands a buffer of
-- a destroyed object to a write, the model has `dangling` in the place of its bytes. Logging,
-- mutexes (the handlers that they guard are single steps) and the other lifetimes of buffers are
-- left out, and of the program the terminal, the flags and the thread pool. A version number of a
-- request that leaves the range of `int` wraps around, where C++ leaves the overflow undefined. A
-- round of the statistics timer is one step, although no lock keeps it and the elements' work
-- apart. Boost, websocketpp and rapidjson are libraries that the source calls.
pub mod Prelude
pub mod Http
pub mod Stream
pub mod Pipeline
pub mod Frame
pub mod Scene
pub mod SceneMonitor
pub mod Image
pub mod Camera
pub mod ImageSource
pub mod OoiProcessor
pub mod ScenePublisher
pub mod WebSocketServer
pub mod PerformanceMonitor
pub mod PerformanceMetrics
pub mod GuiInterface
pub mod SecurityMonitor
pub mod Examples
