-- ===== src/Jtag/Postscan.antt =====
-- target/jtag_scan.c: the bits before, in and behind each instruction register of the chain.
use blackmagic.Base.{
  ℕ, zero, suc, ◌+◌, ◌<◌, List, [], ◌∷◌, ◌++◌, length, get_or, set, take, All, ◌≡◌, refl, ap, ◌∙◌,
  arith,
}
use blackmagic.Base.Words.{u8}
use blackmagic.Jtag.{Device, empty_device, fill_postscan}

-- The sum of some lengths.
abbrev pub sum : List ℕ → ℕ
sum [] = 0
sum (len ∷ lens) = len + sum lens

-- The bits that pass when the register of a device is written.
abbrev pub path_length : Device → ℕ
path_length d = d.ir_prescan + d.ir_len + d.ir_postscan

-- The length of the register of a device, and the bits before it.
abbrev pub place : Device → ℕ × ℕ
place d = (d.ir_len, d.ir_prescan)

-- The first places are those of these lengths, one behind the other.
abbrev pub Assigned : ℕ → List ℕ → List Device → Type 0
Assigned p [] devs = Unit
Assigned p (len ∷ lens) [] = ⊥
Assigned p (len ∷ lens) (d ∷ devs) = (place d ≡ (len, u8 p)) × Assigned (p + len) lens devs

-- The same devices as far as the places go.
abbrev pub Alike : List Device → List Device → Type 0
Alike [] [] = Unit
Alike [] (e ∷ es) = ⊥
Alike (d ∷ ds) [] = ⊥
Alike (d ∷ ds) (e ∷ es) = (place d ≡ place e) × Alike ds es

pub Alike-refl : (ds : List Device) → Alike ds ds
Alike-refl [] = tt
Alike-refl (d ∷ ds) = (refl, Alike-refl ds)

pub Alike-trans : (ds es fs : List Device) → Alike ds es → Alike es fs → Alike ds fs
Alike-trans [] [] [] h k = tt
Alike-trans [] [] (f ∷ fs) h k = absurd k
Alike-trans [] (e ∷ es) fs h k = absurd h
Alike-trans (d ∷ ds) [] fs h k = absurd h
Alike-trans (d ∷ ds) (e ∷ es) [] h k = absurd k
Alike-trans (d ∷ ds) (e ∷ es) (f ∷ fs) (x, h) (y, k) = (x ∙ y, Alike-trans ds es fs h k)

pub Alike-set :
    (ds : List Device) (i : ℕ) (e : Device)
    → place e ≡ place (get_or ds i empty_device)
    → Alike (set ds i e) ds
Alike-set [] i e h = tt
Alike-set (d ∷ ds) zero e h = (h, Alike-refl ds)
Alike-set (d ∷ ds) (suc i) e h = (refl, Alike-set ds i e h)

pub Alike-Assigned :
    (p : ℕ) (lens : List ℕ) (ds es : List Device)
    → Alike ds es
    → Assigned p lens es
    → Assigned p lens ds
Alike-Assigned p [] ds es h k = tt
Alike-Assigned p (len ∷ lens) [] [] h k = k
Alike-Assigned p (len ∷ lens) [] (e ∷ es) h k = absurd h
Alike-Assigned p (len ∷ lens) (d ∷ ds) [] h k = absurd h
Alike-Assigned p (len ∷ lens) (d ∷ ds) (e ∷ es) (x, h) (y, k) =
    (x ∙ y, Alike-Assigned (p + len) lens ds es h k)

-- Devices that are all in the chain: `fill_postscan` makes each path as long as the chain.
fill-sum :
    (p : ℕ) (lens : List ℕ) (devs : List Device)
    → sum lens < 256
    → Assigned p lens devs
    → (fill_postscan (take (length lens) devs)).1 ≡ sum lens
unfolding fill_postscan
fill-sum p [] devs h a = refl
fill-sum p (len ∷ lens) [] h a = absurd a
fill-sum p (len ∷ lens) (d ∷ devs) h (x, a) =
    let rest = fill-sum (p + len) lens devs (omega (arith, h)) a in
    let own : d.ir_len ≡ len = ap (λ (q : ℕ × ℕ). q.0) x in omega (arith, rest, own, h)

pub fill-path :
    (p : ℕ) (lens : List ℕ) (devs : List Device) (n : ℕ)
    → p + sum lens ≡ n
    → n < 256
    → Assigned p lens devs
    → All (λ d. path_length d ≡ n) (fill_postscan (take (length lens) devs)).0
unfolding fill_postscan
fill-path p [] devs n e h a = tt
fill-path p (len ∷ lens) [] n e h a = absurd a
fill-path p (len ∷ lens) (d ∷ devs) n e h (x, a) =
    let behind = fill-sum (p + len) lens devs (omega (arith, e, h)) a in
    let own : d.ir_len ≡ len = ap (λ (q : ℕ × ℕ). q.0) x in
    let before : d.ir_prescan ≡ u8 p = ap (λ (q : ℕ × ℕ). q.1) x in
    (
      omega (arith, behind, own, before, e, h),
      fill-path (p + len) lens devs n (omega (arith, e)) h a,
    )

pub take-fill :
    (p : ℕ) (lens : List ℕ) (devs rest : List Device)
    → Assigned p lens devs
    → take (length lens) ((fill_postscan (take (length lens) devs)).0 ++ rest)
      ≡ (fill_postscan (take (length lens) devs)).0
unfolding fill_postscan
take-fill p [] devs rest a = refl
take-fill p (len ∷ lens) [] rest a = absurd a
take-fill p (len ∷ lens) (d ∷ devs) rest (x, a) =
    let postscan = (fill_postscan (take (length lens) devs)).1 in
    ap (λ ds. record d { ir_postscan = postscan } ∷ ds) (take-fill (p + len) lens devs rest a)
