-- ===== src/Tests/Devices.antt =====
-- The character device, the response path and the dispatch policy at small states.
use xpu_kllm.Prelude.{
  ℕ, ◌/◌, ◌*◌, ◌≡◌, ◌<◌, ◌%◌, ◌^◌, refl, arith, Bool, true, false, List, [], ◌∷◌, none, some,
  length, map, total, ◌==◌,
}
use xpu_kllm.Ring.Fifo.{fit, pop_many}
use xpu_kllm.Ring.Refine.{contents, length-contents}
use xpu_kllm.Chardev.{Device, done, error, efault, slice, read, emit_loop}
use xpu_kllm.Chardev.Resp.{as_ring, IsSound, waiting}
use xpu_kllm.Chardev.Read.{read_refines}
use xpu_kllm.Response.{emit}
use xpu_kllm.Response.Device.{device_ioctl, emit_lem}
use xpu_kllm.Dispatch.{Dispatch, Config, create, request}
use xpu_kllm.Dispatch.Laws.{on_gpu, on_cpu, run, decisions, depth_of_requests}
use xpu_kllm.Tests.Fixtures.{linux, with_two, with_two-IsSound, with_none}

two_wait : 0 < length (waiting with_two)
unfolding waiting as_ring
two_wait = omega (arith, length-contents (as_ring with_two))

read_refines_example :
    let (ret, out, d') = read linux with_two 4 true none true true in
    ((out, waiting d') ≡ pop_many (waiting with_two) (4 / 4))
    × (ret ≡ done (length out * 4))
    × IsSound 2 d'
read_refines_example =
    read_refines linux with_two 4 true none with_two-IsSound (omega arith) (omega arith) two_wait

copy_fails : read linux with_two 4 true none false false ≡ (error efault, [], with_two)
unfolding read
copy_fails = refl

none_wait : waiting with_none ≡ []
unfolding waiting as_ring contents
none_wait = refl

emit_lem_example :
    (d' : Device) × (emit (device_ioctl linux) with_two (1 ∷ 2 ∷ []) 2 ≡ some (done 0, d'))
    × (d' ≡ emit_loop linux with_two (1 ∷ 2 ∷ []) 0 2)
    × (waiting d' ≡ fit 3 (waiting with_two) (slice (1 ∷ 2 ∷ []) 0 2))
    × IsSound 2 d'
emit_lem_example = emit_lem linux with_two (1 ∷ 2 ∷ []) 2 with_two-IsSound (omega arith)

abbrev policy_config : Config ℕ
policy_config = record { cpu_seq_threshold = 0; cache_hit_threshold = 8; gpu_queue_max = 2 }

abbrev policy : Dispatch ℕ
policy = create (λ h. h == 0) 8 policy_config

abbrev asked : List (ℕ × Bool)
asked = (600, true) ∷ (20, true) ∷ (600, false) ∷ (20, false) ∷ []

depth_of_requests_example :
    let d = run policy (map (λ (r : ℕ × Bool). request r.0 r.1) asked) in
    let gpus = total on_gpu (decisions policy asked) in
    let cpus = total on_cpu (decisions policy asked) in
    (d.state.gpu_queue_depth ≡ gpus % 2 ^ 32)
    × (d.state.gpu_dispatches ≡ gpus % 2 ^ 64)
    × (d.state.cpu_dispatches ≡ cpus % 2 ^ 64)
depth_of_requests_example = depth_of_requests (λ h. h == 0) 8 policy_config asked
