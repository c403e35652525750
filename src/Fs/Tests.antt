-- ===== src/Fs/Tests.antt =====
-- src/fs/file.rs at a pool of one thread, where paths are numbers: path 0 is missing.
use min_async_runtime.Base.{
  ℕ, ◌+◌, ◌≡◌, refl, true, false, [], ◌∷◌, none, some, ◌==◌, if◌then◌else◌, returned, arith,
}
use min_async_runtime.Base.Future.{pending, ready, Result, ok, err}
use min_async_runtime.Mpsc.{Mpsc, sync_channel}
use min_async_runtime.Ring.{Ring}
use min_async_runtime.Ring.Refine.{Holds}
use min_async_runtime.Pool.{jobs_bound}
use min_async_runtime.Fs.{open_file, FileJob, Opening, poll_file, run_thread}
use min_async_runtime.Fs.Wake.{reactor_turn, poll_file-run_thread, reactor_turn-loses}

abbrev create : ℕ → Result ℕ ℕ
create path = ok path

abbrev open_at : ℕ → Result ℕ ℕ
open_at path = if path == 0 then err 2 else ok (path + 1000)

abbrev open_with : ℕ → ℕ → Result ℕ ℕ
open_with options path = open_at path

abbrev buffer : Ring ℕ
buffer = record { buffer = some 6 ∷ none ∷ none ∷ []; start = 0; end = 1; count = 1 }

buffer-Holds : Holds buffer 3 (6 ∷ [])
buffer-Holds = record {
  sized = refl;
  small = omega arith;
  start_in = omega arith;
  fits = omega arith;
  counted = refl;
  ends = refl;
  held = refl;
}

abbrev inbox : Mpsc (FileJob ℕ ℕ)
inbox = sync_channel jobs_bound

abbrev opening : Opening ℕ ℕ ℕ ℕ
opening = record {
  path = 7;
  file_operation = some open_file;
  reactor_tag = 6;
  file_handle = none;
  has_polled = false;
  pool = record { num_threads = 1; cursor = 0; senders = inbox ∷ [] };
  reactor = record { reactor_tag_buffer = buffer; reactor_tags = λ t. none; statuses = λ t. none };
  notified = false;
}

poll_file-run_thread_example :
    (f₁ f₂ f₃ f₄ : Opening ℕ ℕ ℕ ℕ) × (poll_file 8 opening ≡ returned pending f₁)
    × (run_thread create open_at open_with 0 f₁ ≡ returned tt f₂)
    × (f₂.notified ≡ true)
    × (reactor_turn f₂ ≡ returned (8 ∷ 8 ∷ []) f₃)
    × (poll_file 9 f₃ ≡ returned (ready (ok (record { handle = 1007 }))) f₄)
poll_file-run_thread_example =
    poll_file-run_thread create open_at open_with opening open_file inbox 3 8 9 refl refl refl
      buffer-Holds (omega arith) (λ h. cc) refl refl refl (omega arith)

reactor_turn-loses_example :
    (f₁ f₂ f₃ f₄ : Opening ℕ ℕ ℕ ℕ) × (poll_file 8 opening ≡ returned pending f₁)
    × (reactor_turn f₁ ≡ returned (8 ∷ 8 ∷ []) f₂)
    × (poll_file 9 f₂ ≡ returned pending f₂)
    × (run_thread create open_at open_with 0 f₂ ≡ returned tt f₃)
    × (f₃.file_handle ≡ some (ok (record { handle = 1007 })))
    × (reactor_turn f₃ ≡ returned [] f₄)
reactor_turn-loses_example =
    reactor_turn-loses create open_at open_with opening open_file inbox 3 8 9 refl refl refl
      buffer-Holds (omega arith) (λ h. cc) refl refl refl (omega arith)
