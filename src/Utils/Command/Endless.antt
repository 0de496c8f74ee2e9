-- ===== src/Utils/Command/Endless.antt =====
-- A request that the kernel cannot answer is made again and again.
use ext3u.Common.{
  ℕ, zero, suc, ◌≡◌, refl, sym, ◌≢◌, ◌∙◌, ne→==, le→ltb, List, [], hangs, enomem, arith,
}
use ext3u.Undel.Ioctl.{UlsInfo}
use ext3u.Utils.Listing.{Shown}
use ext3u.Utils.Command.{World, Answer, replied, failed, shows, one_round, end_round, command_loop}

-- An answer that leaves the command where it was: an error of `ioctl`, or a reply with an error other than
-- a buffer that is too small, for the same record.
pub data Stuck (sent : UlsInfo) : Answer → Type 0 where
  fails : (errno : ℕ) → Stuck sent (failed errno)
  refuses :
      (i : UlsInfo)
      → i.u_errcode ≢ 0
      → i.u_errcode ≢ enomem
      → i.u_next_block ≡ sent.u_next_block
      → i.u_max_files ≡ sent.u_max_files
      → Stuck sent (replied i)

-- Such an answer shows nothing and asks for the same record again.
one_round-Stuck :
    (W : World) (limit round : ℕ) (info : UlsInfo) (a : Answer)
    → Stuck info a
    → W.ioctl round info ≡ a
    → info.u_max_files ≡ 0
    → (i : UlsInfo) × (one_round W limit round info ≡ shows i [])
      × (i.u_next_block ≡ info.u_next_block)
      × (i.u_max_files ≡ 0)
unfolding one_round
one_round-Stuck W limit round info a (fails errno) e none =
    (info, rw (e, one_round) refl, refl, none)
one_round-Stuck W limit round info a (refuses i error other same files) e none = (
  i,
  rw (e, one_round, ne→== i.u_errcode 0 error, ne→== i.u_errcode enomem other) refl,
  same,
  files ∙ none,
)

end_round-block : (i : UlsInfo) → i.u_max_files ≡ 0 → (end_round i).u_next_block ≡ i.u_next_block
unfolding end_round
end_round-block i any = rw (le→ltb 0 i.u_max_files (omega (arith, any))) refl

end_round-files : (i : UlsInfo) → i.u_max_files ≡ 0 → (end_round i).u_max_files ≡ 0
unfolding end_round
end_round-files i any = rw (le→ltb 0 i.u_max_files (omega (arith, any))) any

-- A command that waits for the record at `block`, which is not the end of the list, and shows any number of
-- files, makes request after request, as many as there is fuel for, when each answer is such an error.
pub command_loop-hangs :
    (W : World) (limit fuel round : ℕ) (info : UlsInfo) (shown : List Shown)
    → ((n : ℕ) (i : UlsInfo) → Stuck i (W.ioctl n i))
    → info.u_next_block ≢ 0
    → info.u_max_files ≡ 0
    → command_loop W limit fuel round info shown ≡ hangs
unfolding command_loop
command_loop-hangs W limit zero round info shown stuck next none = refl
command_loop-hangs W limit (suc fuel) round info shown stuck next none =
    let (i, told, waits, any) =
      one_round-Stuck W limit round info (W.ioctl round info) (stuck round info) refl none in
    rw
      (
        told,
        end_round-block i any,
        ne→== i.u_next_block 0 (λ e. next (sym waits ∙ e)),
        command_loop,
      )
      (command_loop-hangs W limit fuel (suc round) (end_round i) _ stuck
        (λ e. next (sym waits ∙ sym (end_round-block i any) ∙ e)) (end_round-files i any))
