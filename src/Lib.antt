-- ===== src/Lib.antt =====
-- UCL-MPComm moves blocks of memory between hosts over RDMA. A caller registers memory with all
-- NICs of its host and publishes buffers; a peer asks for them and learns their addresses and
-- keys. A transfer is then started: it gets a handle, a context and a list of candidate NICs,
-- and its handle goes to a worker thread through a queue. The worker cuts the transfer into
-- chunks, posts each with a 64-bit work-request id, and routes completions back by that id. The
-- caller waits for the transfer, reads the result and releases the handle. Chunks for distant
-- NICs may pass through a buffer of another GPU.
--
-- The files and the code they model (src/mpcomm.cpp unless another file is named):
-- - Errors: the codes of MPCommError, include/mpcomm.h.
-- - Config: the constructor of MPComm::Impl, which reads the settings.
-- - Memory: registerMemory, unregisterMemory, getLkey, getRkey, getNumaNodeForAddr and
--   getPcieAffinityNicsForAddr. A NIC is its list of memory regions.
-- - Published: publishBuffer, unpublishBuffer, unpublishAllBuffers, getPublishedBufferCount.
-- - Query: handleBufferQuery, queryRemoteBuffer, queryRemoteBufferByNuma, updateRemoteMemoryInfo
--   and ConnectionInfo::getRkeyForAddr, byte by byte.
-- - Nics: getNicNumaNode, getLocalNicIndicesForNuma, getNumaForAddr, and the candidate NICs in
--   transferAsyncStart.
-- - HandlePool: the pool of 16-bit transfer handles.
-- - Chunks: the layout loop of transferAsyncStart and TransferContext::getChunk.
-- - Transfer: transferAsyncStart and the calls that reach it, isTransferComplete, waitTransfer,
--   getTransferResult, releaseTransfer. It uses HandlePool, Chunks, Nics, Memory and
--   LockFreeQueue.
-- - LockFreeQueue: the queue of handles to a worker, one call at a time.
-- - WrId: WrIdEncoding.
-- - Gid: gidToString, stringToGid, isNullGid.
-- - QueuePair: modifyQPToInit, modifyQPToRTR, modifyQPToRTS and the keys of qp_map.
-- - Connect: connect, from the choice of the NICs to the links that are kept. It uses QueuePair.
-- - Worker: the state of a worker thread and pollAllNicsForWorker, which routes completions and
--   puts a NIC in quarantine. Worker/Cache: getOrCreateQP and initContextCache. Worker/Posting:
--   the loop of workerThreadLoop that posts chunks, with its flow control. Worker/Loop: the
--   rounds of workerThreadLoop as it is built without CUDA. Worker/Pipeline: the functions of
--   workerThreadLoop for chunks that go through a proxy buffer, and cleanupPxnContextState.
-- - Quarantine: probeQuarantinedNics, which admits NICs again. It uses QueuePair.
-- - Pxn: SpscQueue and PxnProxyBuffer of src/mpcomm_pxn.h, the queue also with its two threads
--   interleaved; Pxn/Topology: GPUs, their peers and NICs in src/mpcomm_pxn.cpp.
-- - Ring: indices that go round, shared by the two queues. Common: lists, words, bits and tests.
--
-- Machine words are natural numbers with the wrap-around written out (add64, sub64, mul64). An
-- int is a sign and a magnitude. A mutex makes its section one step.
--
-- The binary search of getChunk runs on fuel, the number of hosts, which is enough since each
-- round shrinks the range. The posting loop runs on as much fuel as there are chunks left, which
-- is enough since each round that goes on takes one. A call that may spin for ever returns an
-- Option, none for the spin: submit on a full queue, tryPop on a slot that is not written yet.
-- waitTransfer runs over the list of what its rounds see.
--
-- A worker and the calls of other threads meet in the map of transfers; each call and each phase
-- of a round is one step. The context of an active transfer is the entry of the map under its
-- handle.
--
-- Calls of libibverbs, the kernel, CUDA and the C library are parameters. Not modelled: the
-- accepting side of a connection, the discovery of NICs in sysfs, proxy buffers and the copy
-- thread of the PXN manager, whose bodies are CUDA calls, the branch of transferAsyncStart that
-- uses it, fault injection, times and statistics. Nor are logging, the CUDA kernels, bindings,
-- examples and scripts.
pub mod Common
pub mod QueuePair
pub mod Quarantine
pub mod Query
pub mod Transfer
pub mod Worker
pub mod WrId
pub mod Config
pub mod Errors
pub mod Memory
pub mod Connect
pub mod Gid
pub mod HandlePool
pub mod Chunks
pub mod Ring
pub mod Nics
pub mod Published
pub mod Pxn
pub mod LockFreeQueue
