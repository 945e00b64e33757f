-- ===== src/Lib.antt =====
-- A verification of TclCurl, the Tcl extension around libcurl. An easy handle is a Tcl command with
-- a C struct behind it: the options in generic/curl_setopts.c fill the struct and pass values to
-- libcurl; a transfer opens the files that the options named, gives libcurl the POST data, runs,
-- and closes and drops them again; meanwhile libcurl calls functions of generic/tclcurl.c back.
-- Share handles keep lists of the easy handles that use them, and multi handles run several easy
-- handles, driven by a script or by Tcl's event loop.
--
-- How the code corresponds to the files:
--   Api            the calls of Tcl, libcurl and the C library. A call is a value that is appended to
--                  a log; its answer is any function of the log, so libcurl may answer in any way.
--                  A pointer is a number with 0 for NULL, a Tcl object
--                  is its string, a constant of curl.h is its name. The Tcl library is a parameter,
--                  and IsTcl states that Tcl_GetIndexFromObj with TCL_EXACT finds the first equal word.
--   Api/Easy       struct curlObjData and struct MemoryStruct of generic/tclcurl.h.
--   Api/Monad      the state of one command on a handle, and C statements as a state monad.
--   Share          curlLinkEasyToShare, curlDetachShareHandle and curlCleanUpShareCmd of
--                  generic/tclcurl.c, on a store of links; Share/Rep is the abstract view, a list of
--                  users for each share handle, and Share/Chain, Share/Unlink, Share/Sound and
--                  Share/CleanUp relate the loops over the links to it. The loops have as
--                  much fuel as the store has addresses plus one, which is enough since a list
--                  repeats no address.
--   Share/Command  curlShareObjCmd, and the calls of libcurl that curlCleanUpShareCmd makes.
--   Share/Init     curlShareInitObjCmd, and Share/Lock the lock functions, both with TCL_THREADS.
--   TclSize        generic/tcl_size.c.
--   Options        generic/curl_setopts.c and the word tables of generic/ftp.c: the setters, one
--                  handler per option (Slists, Choices, Files, Procs, Sharing, Misc), the table of
--                  generic/curl_setopts.h (Table) and the commands setopt and configure (Run).
--   Options/Sound  what every option keeps true of the handle's files.
--   Options/Untouched  the options by the links between easy and share handles;
--                  Options/Untouched/Links is about these links under all options.
--   Options/Faults  the values with which setopt and configure read behind an -httppost list, or take
--                  the client data of a command that is no share handle.
--   Options/Apart  which options of libcurl each row of the table sets, read off the log of calls.
--   Options/Wires  the function for received data and its argument; Transfer/Wires, Handle/Wires and
--                  Multi/Wires follow the two through the commands of an easy handle and the ones
--                  that a multi handle runs on it. That libcurl accepts the two options is a
--                  hypothesis there.
--   Mime           generic/curl_mime.c: -httppost, and the POST data of a transfer (Mime/Transfer).
--   Callbacks      the functions that libcurl calls back, and sequences of them as events.
--   Transfer       curlPerform of generic/tclcurl.c, with the files it opens and closes.
--   Info           generic/curl_getinfo.c; what libcurl writes into the result variable is a parameter.
--   Handle         the life of an easy handle in generic/tclcurl.c: init, delete, reset and duphandle.
--                  Handle/Command is curlObjCmd, the command with all its words, and Handle/Session the
--                  states that a handle reaches by such commands, by addhandle and removehandle, and
--                  by callbacks while a multi handle performs.
--   Multi          the list of easy handles that generic/multi.c keeps for a multi handle, as nodes with
--                  a first and a last pointer; Multi/Handles has the abstract view, a sequence of
--                  handles with their names. The fuel of the loops over nodes is as in Share.
--   Multi/Command  the operations of generic/multi.c on a multi handle, and Multi/Dispatch its words. The
--                  loops on curl_multi_perform have any fuel; they end as soon as libcurl stops
--                  asking for another call. The functions of the list are handed the CURLM pointer
--                  in place of the struct; its memory is a second list of the state.
--   Multi/Events   curlEventCheck and curlEventProc as steps of Tcl's event loop. curlEventSetup only
--                  sets the time to wait to 0, and is left out.
--   Commands       the search for the name of a new handle in generic/tclcurl.c and generic/multi.c.
--                  Its fuel is one more than the commands there are.
--   Texts          the version and error texts of generic/tclcurl.c.
--   Utils          TclCurl_StripSpaces and TclCurl_BuildProtocolMask of generic/curl_utils.c, which no
--                  option calls in the default configuration.
--   Program        all handles of an interpreter: the structs of the easy handles at their addresses, one
--                  store of links, and the steps that scripts, libcurl and Tcl may take on them;
--                  Program/Steps has what every step keeps true of the links between the handles.
--                  A new handle gets an address that Tcl_Alloc may return, one that is not in use.
--   Examples       the theorems at concrete inputs.
--
-- Bounds: numbers that Tcl converts are integers without a width, since the code only hands them on;
-- generic/tcl_size.c has its bound TCL_SIZE_MAX as a parameter. Memory is never exhausted.
-- Where the code reads outside an array or a struct the model has a status `fault` and stops: behind
-- the command table, behind an -httppost list of odd length, and in the client data of a command that
-- -share is given and that is no share handle. What such a run does to memory is not modelled; the
-- results on links leave these runs out, the others take them up to that read. curlCreateMultiObjCmd writes a name to ten bytes; where the
-- name does not fit, the search for it has no result. Other reads are of whole objects: a header line
-- that libcurl hands over is a whole string, although the code takes it for one that ends with NUL,
-- which libcurl does not promise. shareToken and nextSharedHandle are fields of struct curlObjData in
-- the code and of Store in Share here.
--
-- Not modelled: the code that is compiled only for curl before 7.56 and Tcl before 8.7; what libcurl
-- writes into its own memory behind a CURLM pointer; a post command that works on its own multi
-- handle; curlEventSetup and the registration of the package's commands; the scripts, the
-- tests and the build files. A user's script that reconfigures its own handle during a transfer is
-- outside the events of Callbacks/Events.
pub mod Base
pub mod Api
pub mod Share
pub mod TclSize
pub mod Options
pub mod Mime
pub mod Callbacks
pub mod Transfer
pub mod Multi
pub mod Commands
pub mod Info
pub mod Texts
pub mod Utils
pub mod Handle
pub mod Program
pub mod Examples
