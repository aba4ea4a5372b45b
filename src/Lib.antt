-- ===== src/Lib.antt =====
-- A model of the storage and ingestion core of llama-rag-runtime, a retrieval runtime in C++ (rag.cpp
-- is its library). A client submits documents to the ingestion coordinator, which runs each
-- submission as a job: it is persisted to a job store, chunked, embedded, and activated in a
-- backend. The embedded backend keeps its corpus durable by a write-ahead log.
--
-- Core: rag.cpp/include/rag/core/types.hpp (Core/Types: error codes, `Result`; a string is a list of
-- bytes), the metadata map, a `std::map` (Core/Metadata), `std::unordered_map` (Core/Map), and
-- rag.cpp/src/core/keys.cpp (Core/Keys).
--
-- Store: rag.cpp/include/rag/store/format.hpp (Store/Format: `Writer` and `Reader`), the CRC-32 of
-- rag.cpp/src/store/container.cpp (Store/Crc), the record framing that the log and the job store
-- share (Store/Frame), and rag.cpp/src/store/wal.cpp (Store/Wal: Codec has `encode` and `decode`, File
-- has `Wal` and its operations). The file of a log is its bytes. Each operation takes the answers to its
-- system calls (`Os`): the bytes that each `write` takes, interruptions, errors; after the last of them
-- the process is dead. The loop of `replay` runs on fuel, one more than the bytes of the file.
--
-- Store/Container: rag.cpp/src/store/container_layout.cpp (Layout), the validation of a .ragdb file,
-- and rag.cpp/src/store/container_view.cpp (View), which looks its sections up.
-- `std::sort` is an argument, since it does not say how it orders equal offsets.
--
-- Ingestion: rag.cpp/include/rag/ingestion/job.hpp and job.cpp (Ingestion/Job) and
-- rag.cpp/src/ingestion/coordinator.cpp (Ingestion/Coordinator). The coordinator is built over
-- `Services`, a record of the calls it makes of the job store, the backend, the chunking and the
-- embedder, about which nothing is assumed. State has `Coordinator`, the class's members; Submit has the
-- sections of `submit`, `erase`, `get`, `wait` and `shutdown` under the mutex; Transition has `transition`
-- and `fail_volatile`; Execute has `execute`, as the pieces between which other threads may run
-- (`exec_step`), at most eleven of them. System puts callers, workers and executions together: `Step` is
-- one section of one of them, `Reach` any interleaving. `next_job_id` gives an identifier that no job
-- has, and the clock's readings are arguments.
--
-- rag.cpp/src/ingestion/job_store.cpp (Ingestion/JobStore): File has `AppendOnlyJobStore` and its
-- operations, Compaction has `truncate_prefix`, over the JSON text of a job as a parameter (`JobCodec`);
-- the loops run on fuel, one more than the bytes of the file. Order and Loading say what a loaded log is.
-- The times of a job are natural numbers, where the code has 64-bit integers, and `open_file` reads its file
-- without a failure.
--
-- Dense: rag.cpp/src/dense/policy.cpp (Policy, and `build_dense_index` in Tiered and Building), which index
-- a policy asks for; rag.cpp/src/dense/index.cpp (Index), the exact index; rag.cpp/src/dense/tiered_index.cpp (Tiered), a base with a delta and tombstones.
-- `Engine` is a record of what they compute with: floating-point numbers, the graph and FAISS indexes, and the
-- BM25 index.
--
-- Backend: rag.cpp/include/rag/backend/candidate_backend.hpp (Types), the preparation of a document's chunks in
-- rag.cpp/src/preparation/document_preparer.cpp (Prepare), and
-- rag.cpp/src/backend/embedded_backend.cpp (Embedded): Validate has `validate`, State the members and
-- `Generation`, Build `build_generation`, Write the writers and the constructor, Read the readers, each on the
-- generation it has read. System puts the writers together: a call of `activate` or `erase` is one step, since it
-- holds the mutex, and a compaction two. Corpus is what a candidate backend promises of its documents, Promise
-- and Refine are about how the writers keep it. Coordinated
-- puts the coordinator over the embedded backend (`embedded_services`).
--
-- Not modelled: `recover`, which refills a coordinator from its job store; condition variables and
-- notification; the exceptions that running out of memory throws; the checkpoints of the embedded backend;
-- the graph indexes, the fusion and the rerankers, whose scores are floating-point numbers; PostgreSQL, HTTP, the C interface and the tools.
pub mod Base
pub mod Core
pub mod Store
pub mod Ingestion
pub mod Dense
pub mod Backend
