-- ===== src/Utils/Recover/Told.antt =====
-- The command urm and the kernel together.
use ext3u.Common.{
  ℕ, ◌≡◌, ◌≢◌, true, Option, none, some, Result, ok, err, hangs, eperm, enoent, enomem, eexist,
  enodata,
}
use ext3u.Undel.Disk.{Disk}
use ext3u.Undel.Urm.{Setting}
use ext3u.Undel.Dispatch.{UrmInfo, Machine, Call, uls_call, ustats_call, urm_call, ext3_ioctl}
use ext3u.Undel.Dispatch.Reports.{told}
use ext3u.Utils.Recover.{
  Message, Reply, replied, failed, UrmWorld, outcome, entry_not_found, kernel_memory,
  permission_denied, file_exists, no_directory, other_error,
}

-- What the C library makes of the kernel's answer: a negative result becomes -1 with the number in `errno`.
abbrev pub reply_of : Result ℕ → Call → UrmInfo → Reply
reply_of (err e) call info = failed e
reply_of hangs call info = replied info
reply_of (ok n) (urm_call info') info = replied info'
reply_of (ok n) (uls_call i) info = replied info
reply_of (ok n) (ustats_call i) info = replied info

-- The command on this kernel.
abbrev pub kernel_world : {V : Type 0} → Setting V → Machine → UrmWorld (V × Disk)
kernel_world C K = record {
  opens = true;
  malloc_path = true;
  malloc_dpath = true;
  ioctl = λ info s.
      let (r, call, v', d') = ext3_ioctl C K (urm_call info) s.0 s.1 in
      (reply_of r call info, (v', d'));
}

-- What the command has to say of the result of `ext3u_urm`: nothing of a success, and of each error what it means.
pub data Tells : Result (Unit {0}) → Option Message → Type 0 where
  silent : {x : Unit {0}} {m : Option Message} → m ≡ none → Tells (ok x) m
  not_found : {e : ℕ} {m : Option Message} → e ≡ enoent → m ≡ some entry_not_found → Tells (err e) m
  no_kernel_memory :
      {e : ℕ} {m : Option Message} → e ≡ enomem → m ≡ some kernel_memory → Tells (err e) m
  denied : {e : ℕ} {m : Option Message} → e ≡ eperm → m ≡ some permission_denied → Tells (err e) m
  exists_already :
      {e : ℕ} {m : Option Message} → e ≡ eexist → m ≡ some file_exists → Tells (err e) m
  nowhere : {e : ℕ} {m : Option Message} → e ≡ enodata → m ≡ some no_directory → Tells (err e) m
  other :
      {e : ℕ} {m : Option Message}
      → e ≢ enoent
      → e ≢ enomem
      → e ≢ eperm
      → e ≢ eexist
      → e ≢ enodata
      → m ≡ some other_error
      → Tells (err e) m

-- What the command makes of a call.
abbrev after : {V : Type 0} → UrmInfo → (Result ℕ × Call × V × Disk) → (Option Message × (V × Disk))
unfolding outcome
after info r = (outcome (reply_of r.0 r.1 info), (r.2, r.3))

-- The command and the kernel agree on a result.
abbrev Agree :
    {V : Type 0} → (Result (Unit {0}) × V × Disk) → (Option Message × (V × Disk)) → Type 0
Agree r told = Tells r.0 told.0 × (told.1 ≡ (r.1, r.2))
