-- ===== src/Flash/Routines/Completion.antt =====
-- target_flash.c: the state that `target_flash_complete` leaves.
use blackmagic.Base.{
  suc, List, [], ◌∷◌, length, All, subst, Bool, true, false, not, ◌&&◌, ◌≡◌, refl, sym, ap, ◌∙◌,
  arith,
}
use blackmagic.Base.{if_lem}
use blackmagic.Flash.{Flash, Target, flash_done, flash_buffered_flush, exit_flash_mode}
use blackmagic.Flash.Routines.{flush_and_done, finish_all, target_flash_complete}

-- A region that is not prepared.
abbrev pub Idle : {D : Type 0} → Flash D → Type 0
Idle f = f.ready ≡ false

flash_done-Idle : {D : Type 0} (f : Flash D) (d : D) → Idle (flash_done f d).1
unfolding flash_done
flash_done-Idle {D} f d =
    if_lem (λ (r : Bool × Flash D × D). Idle r.1) (not f.ready) (λ e. ground arith) (λ e. refl)

finish_all-Idle :
    {D : Type 0} (fs : List (Flash D)) (ret : Bool) (d : D)
    → All Idle (finish_all fs ret d).1 × (length (finish_all fs ret d).1 ≡ length fs)
unfolding finish_all
finish_all-Idle [] ret d = (record {}, refl)
finish_all-Idle (f ∷ fs) ret d =
    let flushed = flash_buffered_flush f d in
    let (ok, f', d') = flush_and_done f d in
    let (idle, same) = finish_all-Idle fs (ret && ok) d' in
    ((flash_done-Idle flushed.1 flushed.2, idle), ap (λ n. suc n) same)

exit_flash_mode_off : {D : Type 0} (t : Target D) → (exit_flash_mode t).1.flash_mode ≡ false
unfolding exit_flash_mode
exit_flash_mode_off {D} t =
    if_lem (λ (r : Bool × Target D). r.1.flash_mode ≡ false) (not t.flash_mode) (λ e. ground arith)
      (λ e. refl)

exit_flash_mode_flash : {D : Type 0} (t : Target D) → (exit_flash_mode t).1.flash ≡ t.flash
unfolding exit_flash_mode
exit_flash_mode_flash {D} t =
    if_lem (λ (r : Bool × Target D). r.1.flash ≡ t.flash) (not t.flash_mode) (λ e. refl) (λ e. refl)

-- After `target_flash_complete` in flash mode the target has left it, every region is one that is
-- not prepared any more, and there are as many as before, whatever the flushes, the drivers and the
-- change of mode have answered.
pub target_flash_complete-Idle :
    {D : Type 0} (t : Target D)
    → t.flash_mode ≡ true
    → (let t' = (target_flash_complete t).1 in
        (t'.flash_mode ≡ false) × All Idle t'.flash × (length t'.flash ≡ length t.flash))
unfolding target_flash_complete
target_flash_complete-Idle {D} t on =
    let (ret, fs, d) = finish_all t.flash true t.device in
    let t1 : Target D = record t { flash = fs; device = d } in
    let (idle, same) = finish_all-Idle t.flash true t.device in
    let P : Bool × Target D → Type 0 =
      λ r. (r.1.flash_mode ≡ false) × All Idle r.1.flash × (length r.1.flash ≡ length t.flash) in
    if_lem P t.flash_mode
      (λ e. (
        exit_flash_mode_off t1,
        subst (All Idle) (sym (exit_flash_mode_flash t1)) idle,
        ap (λ x. length x) (exit_flash_mode_flash t1) ∙ same,
      ))
      (λ e. absurd (ground arith))
