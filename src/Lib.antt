-- ===== src/Lib.antt =====
-- Verification of core parts of vidsync, the file synchroniser of this repository (a fork of
-- Syncthing with its own application in cmd/vidsync and frontend). The parts below are the ones
-- that decide which version of a file wins, how devices are named, how a folder's work is queued
-- and limited, in which order blocks are pulled, what devices tell each other about files, what
-- they accept of each other, how far a file is pulled, and which release is newer.
--
-- How the parts interact. Every file has a version vector (lib/protocol/vector.go) with one
-- counter for each device that has changed it. A device's ID (lib/protocol/deviceid.go) names it,
-- and the short form of the ID is the counter's key. A `FileInfo` (lib/protocol/bep_fileinfo.go)
-- carries the version, travels in the messages of internal/gen/bep, and is compared with the
-- local one to find out whether it is newer, in conflict or equivalent. The folder's puller takes
-- files from the job queue (lib/model/queue.go), under the limits of a semaphore
-- (lib/semaphore/semaphore.go). While it downloads, it announces the blocks that it has
-- (lib/model/sentdownloadstate.go), and other devices keep a mirror of that
-- (lib/model/devicedownloadstate.go), so that they can fetch these blocks. All this travels in
-- the messages of lib/protocol/bep_*.go, which a connection (lib/protocol/protocol.go) checks and
-- hands to the model, and whose requests and responses it matches. An index handler
-- (lib/model/indexhandler.go) announces a folder's files in batches (lib/model/fileinfobatch.go)
-- and takes the announcements of the other device. While a file is pulled, the copier, the
-- pullers and the finisher share one state (lib/model/sharedpullerstate.go), for the blocks that
-- lib/scanner/blocks.go lists and `blockDiff` finds missing. What a file was before may be kept
-- by lib/versioner/staggered.go. The blocks of a file are pulled in the order of
-- lib/model/blockpullreorderer.go. Which release of the program is newer is decided by
-- lib/upgrade/upgrade_common.go, apart from the rest.
--
-- Files. Base: shared names, lists over native numbers, Boolean tests, signed integers. Vector:
-- the type and operations of vector.go; Sorted the order of the counters, Rounds and Order what
-- `Compare` says of them, Flip the exchange of its arguments, Update and Merge the two operations
-- that make new vectors. Semaphore: semaphore.go; Bounds the limits of one semaphore, Balance a
-- step relation of goroutines that share one, Multi the type `MultiSemaphore`. JobQueue:
-- queue.go; Order what the methods do to the sequence of jobs, Pages the pagination. DeviceId:
-- Text what is used of Go's `strings`, Luhn luhn.go and the grouping functions of deviceid.go,
-- Base32 Go's encoding/base32, Id the type `DeviceID`. FileInfo: the type, its flags, setters and
-- conflict rules; Platform the platform data, Compare `isEquivalent` and `BlockSize`, Wire the
-- conversions to messages, Conflict, Equivalent and Blocks the theorems. Messages: Index,
-- Progress, Requests and Cluster are the files bep_index_updates.go, bep_download_progress.go,
-- bep_request_response.go and bep_clusterconfig.go of lib/protocol, each with what arrives of a
-- message that was sent. DownloadState: Assoc Go's maps, Remote and Sent the state of one folder
-- in devicedownloadstate.go and sentdownloadstate.go of lib/model, Devices the state of all
-- folders, Mirror when one state mirrors the other, Round and Sync the two loops of `update`, Has
-- what `Has` answers. Upgrade: `CompareVersions` and `versionParts` of
-- lib/upgrade/upgrade_common.go; Order and Same what the comparison says when its arguments are
-- exchanged, and when it says that they are equal. BlockOrder: blockpullreorderer.go of
-- lib/model; Perms permutations of lists made of parts, Reorder the standard order, Every all
-- orders. IndexHandler: the handler's state and its start; Batch the type `FileInfoBatch`, Send
-- `sendIndexTo`, Loop induction on its loop, Chain and Linked how the messages hang together,
-- Used which rows the loop takes, Every what holds of all files sent, Complete what one call
-- sends, Receive `receive`, Store what it relies on in the database, Exchange both ends together,
-- Registry the type `indexHandlerRegistry` of the handlers by folder, with `Get`, `Add` and
-- `RemoveAndWait` of service_map.go as operations on a map (Row what it holds of one folder,
-- Started what a start does, Registered and History all methods in any order, Agree and Order the
-- two orders of announcement and registration, Route `ReceiveIndex`). PullerState: the type
-- `sharedPullerState` and its methods; Steps the goroutines as a step relation, Work what the
-- counters say of it, Accounts what `Progress` reports, Closing `finalClose`. BlockList: the
-- lists of a file's blocks; Cut what `Blocks` of lib/scanner/blocks.go makes of the data, Reused
-- what `blockDiff` of lib/model/folder_sendrecv.go finds. BufferPool: lib/protocol/bufferpool.go;
-- Buckets which bucket a size has, Negative what `Get` does with a negative size, Reuse that
-- buffers fit and can be put back. Staggered: `toRemove` of lib/versioner/staggered.go; Ages the
-- ages of versions and their spacing, Sorted the order of the versions, Spaced what it keeps.
-- Protocol: Path what is used of Go's `path`, Parts paths and their parts, Check the checks on
-- names and files, Walk and Filename which names pass, Dispatch `dispatcherLoop`, Fit and Safe
-- what it hands on, Awaiting requests and responses, Slots the channels of the requests, Answers
-- who gets which answer. Each part has a module Tests with runs and with the theorems at concrete
-- inputs.
--
-- How the model reads the code. A Go function is a function by clauses; a loop over indices is a
-- recursion on what is left of the slices; a method that changes its receiver returns the new
-- value. `updateWithNow` and `Merge` may write into the array of their receiver and return it;
-- the model is about the value that they return. `uint64` counters wrap at 2^64 in
-- `update_with_now`; IDs, flags and clocks are plain natural numbers. Go's `int` and `int64` are
-- whole numbers without wrap-around, except where the code narrows to `int32` (`to_int32`) and in
-- `ModTimeEqual`, whose 64-bit cut-off and negation are written out. Pointers are options. Maps,
-- locks and goroutines: each method under a mutex is one step. Panics are `none` or an error
-- value. The clock is an argument. A map is a list of keys and values, and a loop over a map goes
-- through the list; Go leaves that order open. The map of waiting requests is a function, and
-- channels are numbered. The rows and answers of the database, of the connection and of the
-- context, the size of an encoded message, and how calls on the file system end are parameters;
-- where a theorem relies on the database, `KeepsSequence` says for what; its calls may fail. The
-- limit on the rows of a call is passed to the database as in the code. The slices of block
-- indexes are values.
--
-- Fuel. `cut`, the loop of `chunk`, takes the number of blocks as fuel, and each round takes at
-- least one block; that the chunks are all blocks is part of the theorem on the orders. The
-- decoder of base 32 takes the length of its text as fuel; each group takes eight bytes, so that
-- the fuel cannot run out, and the round trip is proved for every length.
--
-- `chunks`, the loop of `Blocks`, takes the length of the data as fuel; each round takes a byte
-- at least.
--
-- Bounds. Text handled by `UnmarshalText` is ASCII: `ToUpper` of other letters is left out. Names
-- are checked by their characters; no character but the slash and the dot matters. The page and
-- page size of `Jobs` are not negative. The sizes of a semaphore stay far from the largest `int`;
-- that they are not negative is not checked by the code, and a condition of the theorems that
-- need it.
--
-- SHA-256 is a parameter; one theorem relies on it to tell texts apart and to give the constant
-- of the code for the empty text.
--
-- Not modelled: logging and formatting for people, the network, the database and the file system.
pub mod Base
pub mod Vector
pub mod Semaphore
pub mod JobQueue
pub mod DeviceId
pub mod FileInfo
pub mod Messages
pub mod DownloadState
pub mod Upgrade
pub mod BlockOrder
pub mod IndexHandler
pub mod PullerState
pub mod Protocol
pub mod Staggered
pub mod BufferPool
pub mod BlockList
