-- ===== src/Lib.antt =====
-- A model of xpu-kllm, an inference stack whose prompts and answers go through a character device,
-- and theorems about it.
--
-- A client writes a prompt to /dev/llm_prompt1 (kernel/chardev/llm_prompt.c). A tokenizer in the
-- kernel (bpf/tokenizer.bpf.c) turns its bytes into tokens and puts these into a ring of shared
-- memory (kernel/chardev/kllm_ring.h), from which a reactor in user space takes them in batches
-- (userspace/include/kllm_ring_user.h). A batch scheduler (userspace/reactor/batch_scheduler.c)
-- keeps the requests in flight, asks a dispatch policy (userspace/compute/dispatch_policy.c) for
-- CPU or GPU, runs the inference, and sends each generated token back by ioctl
-- (userspace/reactor/kllm_response.c) into the device's response ring, where the client reads it.
-- The blocks of the key-value cache come from an arena (userspace/kvcache/arena_alloc.c), and a
-- content-addressed index (userspace/kvcache/cache_index.c) finds them again. A single request runs
-- in the decode loop (userspace/decode/decode_loop.c), which samples one token after the other. The
-- GPU path (userspace/compute/infer_gpu.c) fetches cache blocks by wavefronts of reads
-- (userspace/gpu/nvme_ep_wavefront.c) into regions of memory (userspace/gpu/p2p_dma.c), and the
-- weight loader (userspace/weights/weight_loader.c) submits such wavefronts for a model's weights. The
-- CPU path (userspace/compute/infer_cpu.c) runs attention (userspace/compute/ace_attention.c) over the
-- blocks that the index finds. The reactor's start (userspace/reactor/kllm_reactor.c) makes the arena,
-- the index and the policy, and BPF probes (bpf/kllm_trace.bpf.c) time the requests.
--
-- Which file models what:
--   Prelude          names passed on, Boolean tests, arrays as lists, machine words
--   Ring             the token ring: kllm_ring_mask, _free, _produce, _available, _consume are mask,
--                    free, produce, available, consume; kllm_ring_consume_batch is consume_batch
--   Ring.Fifo        a bounded queue, which the rings implement
--   Ring.Inv, .Refine, .Batch   the ring's invariant, and the ring as a queue
--   Ring.Spsc        both sides at work at once, cut at their accesses to shared memory
--   Chardev          the device: kllm_write, _read, _poll, _mmap, _ioctl, kllm_resp_produce,
--                    kllm_alloc_token_ring and kllm_init under these names without kllm_
--   Chardev.Interface   what the kernel's headers offer, with their documented laws
--   Chardev.Resp, .Emit, .Read, .Init   the response ring as a ring, and the handlers
--   Response         kllm_response_emit, _emit_one and _eos over any file; .Device puts the device
--                    behind the file descriptor
--   Dispatch         kllm_dispatch_create, _decide and _gpu_complete
--   Tokenizer        do_merge_pass and kllm_tokenize, phase by phase; .Scan, .Merge, .RoundTrip and
--                    .Output for the scan, the merges, detokenizing and the ring
--   Reactor          kllm_ring_poll of userspace/reactor/kllm_reactor.c; .Drain for many calls of it;
--                    .Startup has kllm_map_token_ring, kllm_init_kvcache, kllm_reactor_start and
--                    _shutdown, .Accounts and .Shutdown what they give back, .Cache the cache that they make
--   Scheduler        the data of the batch scheduler, kllm_batch_create and kllm_batch_submit
--   Scheduler.Step   kllm_batch_step; below it .Fresh, .Account and .Admit
--   Arena            kllm_arena_create, _alloc, _free, _slot_index and _slot_ptr, and the block's sizes;
--                    .Layout has kllm_block_key and kllm_block_value
--   Index            kllm_index_create, _lookup, _insert, _evict and _get_stats under these names
--                    without kllm_index_; the walks along the entries are probe and first_empty
--   Index.Probing, .Inv, .Steps, .Victim, .Insert   walks, the invariant, and what keeps it
--   Index.Hits, .Kept, .Room, .Gaps, .Runs   lookups after insertions and evictions, and all states
--   Index.Again, .Occupancy, .Scarce   lookups after lookups, and how full an index gets
--   Sampling         sample_greedy, _temperature, _top_k, _top_p and sample_token; .Argmax and .Bounds
--   Decode           kllm_decode_run: run, its loop rounds and one round; .Rounds and .Streams
--   Wavefront        kllm_wavefront_build_kv_fetch, _build_weight_load, _submit and _poll; .Fetch
--   InferGpu         kllm_infer_gpu_create, _destroy, fetch_kv_blocks, kllm_infer_gpu and _escalate,
--                    with kllm_p2p_alloc_region and _free_region; .Gather, .Fetch, .Regions, .Table,
--                    .Output
--   Weights          kllm_weight_loader_create, _load_all, _destroy and kllm_weight_get_layer; .Load
--                    and .Release
--   Bf16             bf16_to_f32 and f32_to_bf16 on bits
--   Attention        attention_scalar, attention_avx512_bf16, attention_amx_bf16, kllm_ace_probe and
--                    kllm_ace_attention; .Loops, .Reference and .Cells for the output element by
--                    element, .Exact and .Levels for the kernels against each other, .Same and
--                    .Inside for what they read
--   InferCpu         kllm_infer_cpu_single_layer and kllm_infer_cpu; .Layers, .Outcome and .Reads
--   Microscaling     fp8_e4m3_to_f32, mx_dequant_bf16, mx_dot_product and mx_quant_to_bf16 of
--                    userspace/compute/mx_dequant.h; .Fused
--   Tracing          emit_trace, start_request, end_request and the probes; .Requests and .Latency
--   Tests            concrete states, and the theorems at them
--
-- A 32-bit or 64-bit counter is a native number with its wrap-around written out. A store is a
-- record that the operations return anew. What the kernel or an allocator decides (whether memory is
-- there, whether a copy succeeds, how a wait ends) is an argument. The kernel's CIRC_CNT, CIRC_SPACE
-- and rounddown_pow_of_two, the BPF maps, the inference engines, floats, the vector intrinsics, SHA-256,
-- GPU memory, the GPU's attention kernel and the clock are parameters. The theorem that compares the
-- kernels of the CPU is about natural numbers with dot products up to 2^24, on which the arithmetic of
-- floats is exact; its hypothesis on floats and intrinsics says no more than that.
--
-- The loop of kllm_response_emit runs on fuel, one round more than there are tokens, and is shown
-- to need no more. The decode loop runs on 32768 rounds, the length of its buffer, which are shown
-- to be enough; the loop of attention_avx512_bf16 in steps of 32 runs on head_dim / 32 + 1 rounds, which
-- are enough for fewer than 2^32 - 32 elements of a head, the only ones for which it is a model: beyond,
-- the loop in uint32_t has no end. The wait for completions in fetch_kv_blocks runs on any fuel. Every other loop
-- recurses on its list or its number of rounds; bpf_loop is the recursion on its bound of 128.
--
-- Not modelled: the attention kernels of the GPUs, the tool that prints traces, and the registration
-- of memory with io_uring and RDMA, which are placeholders. The set-up of SPDK, mappings and NUMA is
-- left out. Memory safety of an array is modelled only where an index is computed: a prompt longer than
-- a request's token array, which kllm_batch_submit copies without a test, is outside the model. For a
-- sequence with more blocks than the GPU context's table, the memory behind the table is a parameter;
-- the query of the CPU's attention is a buffer that reads as 0 behind its end. A division by
-- tokens_per_block = 0 is a fetch that does not return, and kllm_infer_gpu_create is modelled for other
-- values only.
pub mod Prelude
pub mod Ring
pub mod Chardev
pub mod Response
pub mod Dispatch
pub mod Tokenizer
pub mod Reactor
pub mod Sampling
pub mod Decode
pub mod Scheduler
pub mod Attention
pub mod InferCpu
pub mod Arena
pub mod Bf16
pub mod Index
pub mod Wavefront
pub mod InferGpu
pub mod Weights
pub mod Microscaling
pub mod Tracing
pub mod Tests
