-- ===== src/Lib.antt =====
-- Chainsaw puts a Windows machine to sleep when its owner's access token moves away. The client
-- (client/) runs on that machine, the token (server/) is an ESP32, and shared/ holds what both use.
-- They interact like this: over USB the client gives a new token its keys; over Bluetooth LE it
-- authenticates a token by the signature of its address, then demands, again and again, the
-- strength at which the token hears it, and hibernates when the median of the answers is too low.
--
-- Base holds what all modules share: tests, lists and signed numbers over the native numbers, byte
-- buffers, and `Outcome`, how a call can end. The model is that of a debug build, in which a failed
-- ASSERT stops the program (`stop assertion`); LOG_FATAL throws (`stop fatal`); an access outside a
-- buffer or std::unreachable is `stop undefined`. A byte is a number below 256, and the narrowing
-- casts are written out.
--
-- The parts, in the order in which they build on each other:
-- - Security: shared/security/CHash.hpp, ecc_key.hpp and sha.hpp. wolfCrypt is not part of the
--   repository: the record `Crypto` holds the calls made of it, `CryptoLaws` what the protocols rely
--   on, and Security/Sample is a small instance for the tests. A key is its DER bytes.
-- - Services: shared/common/ble_services.hpp, the UUIDs, the packet headers and the SHA versions.
-- - Address: the text of a Bluetooth address at both ends, from
--   client/src/bluetoothLE/ble_common.hpp and server/main/ble/ble_common.cpp.
-- - Nimble: the error codes of server/main/ble/ble_common.hpp.
-- - Gatt: client/src/bluetoothLE/windows/CDevice.cpp and CService.cpp, the lookups and, in
--   Gatt/Discovery, how the maps are filled from what WinRT lists (`Answer`), in a debug and a release
--   build. The maps are association lists.
-- - WhoAmI: Token is server/main/ble/profiles/CWhoAmI.cpp (`callback_authenticate` is the callback
--   that make_callback_authenticate gives), Client is verify_server_address of
--   client/src/CServer.cpp with its helpers. `Reads` is what the characteristic gives at each
--   attempt; the loop makes `max_attempts`, three, and `left` counts the attempts still to be made.
-- - Nvs: server/main/sys/CNonVolatileStorage.cpp over the parameter `NvsFlash`, the calls of
--   ESP-IDF's NVS; `NvsWorks` is a flash on which they all succeed. Init is the constructor with its
--   loop, over the parameter `Partition`; its fuel counts the turns, and two are enough if an erased
--   flash has free pages.
-- - KeyTransfer: Client is send_key of client/src/main.cpp, Token is server/main/usb_cdc.cpp with
--   the static variables of its callback in the record `Session`, Boot is server/main/main.cpp.
-- - Replay: client/src/CReplayProtector.cpp. Time is a number of ticks of the steady clock, given to
--   each call. The iterator of an age is its block and whether it is still valid, by the rules of
--   std::unordered_set; whether an emplace rehashes is given to the call.
-- - WhereAmI: Demand and Receiver are client/src/CRssiDemander.cpp, Token and Notifier are the
--   callbacks of server/main/ble/profiles/CWhereAmI.cpp for a demand and for a notification. NimBLE's
--   answers, the attribute handle and the RSSI, are the record `Radio`. Sender is how the client
--   decides on a demand and writes it.
-- - Characteristic: client/src/bluetoothLE/windows/CCharacteristic.hpp and .cpp. A coroutine is two
--   functions, up to its `co_await` and from there on; Calls has the relation of the calls in flight.
-- - Queue, Scanner and Server: client/src/common/CThreadSafeQueue.hpp, CScanner.cpp and CDeviceList.cpp,
--   and client/src/CServer.cpp. Scanner/Watch is the scan, whose devices go to the queue of the server;
--   Scanner/Tasks is how the scans start and end as tasks beside the loop of client/src/main.cpp, of which
--   Scanner/Frame is a turn, with client/src/common/CStopWatch.hpp in Scanner/StopWatch;
--   Server/State has the operations of the server, Server/Coroutines the coroutines that it starts for
--   the devices and how they interleave. The loop of `process_queue` has the queue's length as fuel.
-- - Gap: server/main/ble/CConnection.hpp and .cpp, CGap.hpp and .cpp. The calls of the NimBLE host are
--   the record `Host`, `HostWorks` is a host on which they succeed. A connection is its handle, and
--   the destructors that a scope runs are calls (`leave`). Session has the machine that the callback
--   follows, Reached the states that come about.
-- - Profiles: server/main/ble/profiles/ as far as it registers services with NimBLE. The objects to
--   which NimBLE gets pointers stand in a `Memory`, in which an address counts the objects made before;
--   Profiles/Cache is the builder and the cache, Profiles/Found what the arrays denote, Profiles/Loaded
--   what a flash gives of stored keys, which wolfCrypt decodes (`Decoders` of Security/Decode, with the
--   constructor of a key in shared/security/ecc_key.hpp).
-- - RssiPlot: client/src/gui/CRSSIPlot.cpp and the test of client/src/main.cpp that decides on
--   hibernation. The floats of the plot hold values of int8_t and are taken for integers; the ratio
--   above one half is a comparison of sizes.
-- - KeyFiles: client/src/common/client_common.hpp and .cpp with make_ecc_key of
--   shared/security/ecc_key.hpp, and in Actions what client/src/main.cpp does when the user makes or
--   erases keys, with restrict_file_permissions of client/src/system/windows/System.cpp. The file system
--   and the rights of the process are the record `KeyFiles`.
-- - SerialPort: client/src/system/windows/CSerialCommunication.cpp, in Search the port of the token among
--   the devices that Windows lists, in Open the connection over the calls of Windows (`Win32`).
--
-- All other loops are structural recursions, over the attempts left, the reads, the ages or the
-- values, so no fuel is needed. A property of a run over time is stated over a relation: `Steps` of
-- Replay/Closed, `Reached` of Gap/Reached, `Steps` of Characteristic/Calls and of Server/Coroutines,
-- `Run` of Scanner/Bounds and of Scanner/Started.
--
-- Not modelled: the graphical interface, Windows, SDL, ImGui, the ESP-IDF tasks and GPIO, which are
-- calls of other libraries; the tasks and callbacks that CNimble.cpp sets up with NimBLE; the thread-
-- safe map, which the program does not use; moving a serial connection; the C++ runtime's threads and
-- locks, except as the order of steps.
pub mod Base
pub mod Address
pub mod Characteristic
pub mod Gap
pub mod Gatt
pub mod KeyFiles
pub mod KeyTransfer
pub mod Nimble
pub mod Nvs
pub mod Profiles
pub mod Queue
pub mod Replay
pub mod RssiPlot
pub mod Scanner
pub mod Security
pub mod SerialPort
pub mod Server
pub mod Services
pub mod WhereAmI
pub mod WhoAmI
