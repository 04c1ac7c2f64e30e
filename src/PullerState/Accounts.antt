-- ===== src/PullerState/Accounts.antt =====
-- What `Progress` of lib/model/sharedpullerstate.go reports of a file that is being pulled.
use vidsync_app.Base.{
  ℕ, ◌+◌, ◌≡◌, ◌≤◌, sym, subst, ap, ap₂, ◌∙◌, List, arith, length, ℤ, pos, ◌+ℤ◌, ◌-ℤ◌, ◌≤ℤ◌,
  int_laws,
}
use vidsync_app.FileInfo.{FileInfo, BlockInfo}
use vidsync_app.PullerState.{PullerProgress, progress}
use vidsync_app.PullerState.Steps.{System, start, Reach, Counted}
use vidsync_app.PullerState.Work.{Reach-Counted}

-- A report that accounts for every block: those that are queued are the only ones it leaves out.
pub record Accounts (reused blocks : ℕ) (b : System) (p : PullerProgress) : Type 0 where
  pub total : p.total ≡ pos (reused + blocks)
  pub pulled : p.pulled ≡ pos b.pulled
  pub pulling : p.pulling ≡ pos b.pulling
  pub copied : p.copied_from_origin +ℤ p.copied_from_elsewhere ≡ pos b.copied
  pub elsewhere : pos 0 ≤ℤ p.copied_from_elsewhere +ℤ pos b.marking

add_pos : (a b : ℕ) → pos a +ℤ pos b ≡ pos (a + b)
add_pos a b = omega int_laws

sub_pos : (a b : ℕ) → pos (a + b) -ℤ pos a ≡ pos b
sub_pos a b = omega int_laws

not_below : (q c m k : ℕ) → m ≤ c + k → pos 0 ≤ℤ pos (q + c) -ℤ pos q -ℤ pos m +ℤ pos k
not_below q c m k h = rw (sub_pos q c) (omega int_laws)

counted-Accounts :
    (reused blocks size : ℕ) (b : System)
    → Counted (pos reused) blocks b
    → Accounts reused blocks b (progress size b.state)
unfolding progress
counted-Accounts reused blocks size b w = record {
  total =
      ap₂ (λ x y. x +ℤ y) (ap₂ (λ x y. x +ℤ y) w.reused_is w.copy_total_is) w.pull_total_is
      ∙ ap (λ k. k +ℤ pos (b.pulling + b.pulled)) (add_pos reused (b.queued + b.copied))
      ∙ add_pos (reused + (b.queued + b.copied)) (b.pulling + b.pulled)
      ∙ ap pos (omega (arith, w.blocks));
  pulled = ap₂ (λ x y. x -ℤ y) w.pull_total_is w.pull_needed_is ∙ sub_pos b.pulling b.pulled;
  pulling = w.pull_needed_is;
  copied =
      ap₂ (λ x y. x +ℤ (y -ℤ x)) w.copy_origin_is
        (ap₂ (λ x y. x -ℤ y) w.copy_total_is w.copy_needed_is ∙ sub_pos b.queued b.copied)
      ∙ omega int_laws;
  elsewhere =
      subst (λ x. pos 0 ≤ℤ x +ℤ pos b.marking)
        (sym (
          ap₂ (λ x y. x -ℤ y) (ap₂ (λ x y. x -ℤ y) w.copy_total_is w.copy_needed_is)
            w.copy_origin_is))
        (not_below b.queued b.copied b.marked b.marking w.marks);
}

-- Of a file that is being pulled, `Progress` reports as total the reused blocks and all others, as
-- pulled and as pulling the blocks that are, and as copied, from the original file and from
-- elsewhere together, the blocks that were copied. The number copied from elsewhere is not negative
-- unless a block has just been counted as copied from the original file and not yet as copied.
pub Reach-Accounts :
    (file : FileInfo) (blocks : List BlockInfo) (reused : List ℤ) (now : ℤ) (size : ℕ) (b : System)
    → Reach (start file blocks reused now) b
    → Accounts (length reused) (length blocks) b (progress size b.state)
Reach-Accounts file blocks reused now size b r =
    counted-Accounts (length reused) (length blocks) size b
      (Reach-Counted file blocks reused now b r)
