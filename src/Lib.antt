-- ===== src/Lib.antt =====
-- Verification of the core of a game server (project/Server and project/Common): the containers, the
-- pools and the timers that its processes share, the packets of its connections, and the cells of its
-- scenes.
--
-- How the parts interact. Each server process receives bytes by a CConnection, whose ExtractBuffer cuts
-- them into packets for the command handlers. CConnectionMgr owns the connections. The handlers keep
-- players, characters and scenes in an AVLTree under 64-bit keys, and take objects from a MemObjectPool.
-- A scene keeps its objects in the cells of a CGridManager: when an object moves, CalDiffGrids tells
-- which cells come into its sight and which go out of it. TimerManager calls the functions of the
-- timers that are due.
--
-- The files.
--   Base, Base/*: tests, lists and integers on the native numbers, and the results of calls that can
--     fault (Base/Outcome). A fault is a use of NULL, a write behind a buffer or a loop without end.
--   Avl: TreeNode and the rotations of Common/Utility/AVLTree.h. A tree is a data type; its nodes keep
--     their address, their parent pointer and their stored height. get_height is one more than
--     GetHeight. Avl/Insert is InsertInner, Avl/Delete is DeleteInner with FreeNode, Avl/Container the
--     public operations with the free list and the blocks of 1024 nodes. Avl/Order is what they are
--     compared with: sorted lists of keys and values.
--   Grid: GetSurroundingGrids and CalDiffGrids of Server/GameServer/GridManager.cpp. Grid/Merge is about
--     the merge of two arrays, Grid/Around and Grid/Adjacent about the cells round a cell, Grid/Change
--     about both.
--   Cells: the lists of objects of the cells, CGrid of Server/GameServer/Grid.cpp, and the operations of
--     CGridManager on them. Cells/Position is Init and GetIndexByPos.
--   Scene: the handlers of Server/GameServer/Scene.cpp on the requests to enter, to move and to leave, with
--     the players' and the updates' managers of Server/GameServer/GameObject/PlayerObject.cpp.
--     Scene/Holds is the invariant that ties the cells to the positions of the players. Scene/Update is
--     HandleUpdateObject with the functions that send: a call of
--     SendCmdToConnection is recorded with the connection and the character that it gets.
--   Links, Links/*: nodes linked by m_pNext and m_pPrev over a store, for Cells and
--     for the files below.
--   MemObjectPool: Common/Utility/MemObjectPool.h. MemObjectPool/Mt has MemObjectMTPool, whose operations
--     are a copy of the others under a mutex.
--   Timer: Server/ServerEngine/TimerManager.h and TimerManager.cpp.
--   DataBuffer: CBufferManager::AllocDataBuff, AddRef and Release of Common/DataBuffer/DataBuffer.h.
--     DataBuffer/Copy is CopyFrom and CopyTo with SendCmdToConnection of
--     Server/ServerEngine/ServiceBase.cpp.
--   Connection: CConnection::ExtractBuffer of Server/ServerEngine/Connection.cpp, with the buffer sizes of
--     Common/DataBuffer/DataBuffer.cpp and the header of Common/PacketDef/PacketHeader.h.
--   Connection/Receive: DoReceive, which fills the buffer that ExtractBuffer takes apart.
--   BufferHelper: CBufferHelper of Common/DataBuffer/BufferHelper.h and BufferHelper.cpp, which writes the
--     packets that Connection takes apart. BufferHelper/Strings has the strings.
--   ConnectionMgr: CConnectionMgr of Server/ServerEngine/Connection.cpp.
-- All paths stand below project/.
--
-- Numbers. Unsigned 32-bit sums keep their wrap-around, written % 2 ^ 32. Keys are numbers, and heights
-- and counters are small enough for an int, since a tree holds no more nodes than memory has. Indices of
-- cells are integers, for -1 marks the end of an array.
--
-- Fuel. extract_loop gets two rounds more than there are bytes, since each round but the last two takes
-- a byte at least. update_events and find_event get one round more than events were ever made. Where
-- fuel would run out the result is the fault no_progress, and the theorems below say that it does not,
-- or, for a header of size 0, that no fuel is enough. The walks along the cells get one round more than
-- objects were made. All other loops are structural.
--
-- Assertions. The makefiles build the servers without NDEBUG, so an ASSERT that fails, and each
-- ASSERT_FAIELD, ends the process. It is the fault assertion in Cells, in Scene with Scene/Update, in
-- BufferHelper, in DataBuffer/Copy and in InitConnectionList. The other files have no result for a
-- failed assertion: there the code's next step is modelled.
--
-- Parameters. malloc is a function that tells whether its n-th call succeeds; blocks that it gives
-- do not overlap and are zeroed by the code. The clock's values are arguments. What the packet
-- handler and the timer functions do is not modelled, only which calls they get, in which order.
-- recv is an argument of DoReceive, with Delivers as what it does on an open connection. FLOAT, its
-- operations and its conversion to INT32 are the argument Floats, with FloatLaws as what the code
-- relies on: an operation on a number between two small integers lies between the results on the
-- integers. NaN is no number there.
--
-- Not modelled. MoveFirst and MoveNext of AVLTree; DoSend, the sockets and DoReceive on Windows; the
-- packets that a scene sends, HandleUpdateList and the scene manager; the release of blocks at the end
-- of the process; the command handlers of the other servers, path finding, the database and script
-- wrappers, the clients, and the copies of other projects' libraries (Mysql, Sqlite, Lua, LockFreeQueue).
pub mod Avl
pub mod Base
pub mod BufferHelper
pub mod Cells
pub mod Connection
pub mod ConnectionMgr
pub mod DataBuffer
pub mod Grid
pub mod Links
pub mod MemObjectPool
pub mod Scene
pub mod Timer
