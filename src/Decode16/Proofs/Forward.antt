-- ===== src/Decode16/Proofs/Forward.antt =====
-- About the reads of the decoder: how far each moves the position. One rule for each way to build a
-- read.
pub mod Operands
pub mod Arms
pub mod Dispatch
use linuxrecomp.Base.{
  ℕ, ◌+◌, ◌-◌, ◌≤◌, ◌<◌, ◌≡◌, refl, sym, ◌∙◌, Bool, true, false, Option, none, some, List, [], ◌∷◌,
  ◌++◌, arith, if◌then◌else◌, length, get_elem?, get_elem?_lt,
}
use linuxrecomp.Base.Int.{ℤ}
use linuxrecomp.Decode16.{Instruction, Decoder}
use linuxrecomp.Decode16.Reader.{
  M, ◌>>=◌, pure, gets, u8, unread, s8, u16, s16, u32, s32, near_target,
}
use linuxrecomp.Decode16.Arms.{Arm, choose}

-- `d'` is `d` with the position moved to the right, but for `slack` bytes, and not past the end.
pub record Reaches (slack : ℕ) (d d' : Decoder) : Type 0 where
  pub bytes : d'.bytes ≡ d.bytes
  pub base : d'.base ≡ d.base
  pub forward : d.pos ≤ d'.pos + slack
  pub inside : d.pos ≤ length d.bytes → d'.pos ≤ length d.bytes

-- However `m` returns, it has moved forward.
pub record Forward {A : Type 0} (slack : ℕ) (m : M A) : Type 0 where
  pub at : (d : Decoder) (a : A) (d' : Decoder) → m d ≡ some (a, d') → Reaches slack d d'

pub Reaches-refl : (d : Decoder) → Reaches 0 d d
Reaches-refl d = record { bytes = refl; base = refl; forward = omega arith; inside = λ h. h }

pub Reaches-trans :
    {m n : ℕ} {d e f : Decoder} → Reaches m d e → Reaches n e f → Reaches (m + n) d f
Reaches-trans {m} {n} {d} {e} {f} p q = record {
  bytes = q.bytes ∙ p.bytes;
  base = q.base ∙ p.base;
  forward = omega (arith, p.forward, q.forward);
  inside = λ h. rw (← p.bytes) (q.inside (rw p.bytes (p.inside h)));
}

module _ {A : Type 0} where
  pub Forward-pure : (a : A) → Forward 0 (pure a)
  unfolding pure
  Forward-pure a = record { at = λ d b d' e. ground (arith, Reaches-refl d) }

  pub Forward-gets : (f : Decoder → A) → Forward 0 (gets f)
  unfolding gets
  Forward-gets f = record { at = λ d b d' e. ground (arith, Reaches-refl d) }

-- A read of one byte moves by one.
pub u8_step :
    (d : Decoder) {b : ℕ} {d' : Decoder}
    → u8 d ≡ some (b, d')
    → (get_elem? d.bytes d.pos ≡ some b) × (d' ≡ record d { pos = d.pos + 1 })
unfolding u8
u8_step d e = ground arith

pub Forward-u8 : Forward 0 u8
Forward-u8 = record {
  at = λ d b d' e.
      let (found, moved) = u8_step d e in
      rw moved (record {
        bytes = refl;
        base = refl;
        forward = omega arith;
        inside = λ h. omega (arith, get_elem?_lt d.bytes d.pos found);
      });
}

pub Forward-near_target : (rel : ℤ) → Forward 0 (near_target rel)
unfolding near_target
Forward-near_target rel = record { at = λ d b d' e. ground (arith, Reaches-refl d) }

module _ {A B : Type 0} where
  option_bind-some :
      (o : Option (A × Decoder)) (f : A → M B) {b : B} {d'' : Decoder}
      → elim o [ none ↦ none | some (a, d') ↦ f a d' ] ≡ some (b, d'')
      → (a : A) × (d' : Decoder) × (o ≡ some (a, d')) × (f a d' ≡ some (b, d''))
  option_bind-some none f e = cc
  option_bind-some (some (a, d')) f e = (a, d', refl, e)

  pub bind-some :
      (m : M A) (f : A → M B) (d : Decoder) {b : B} {d'' : Decoder}
      → (m >>= f) d ≡ some (b, d'')
      → (a : A) × (d' : Decoder) × (m d ≡ some (a, d')) × (f a d' ≡ some (b, d''))
  bind-some m f d e = option_bind-some (m d) f e

  pub Forward-bind_slack :
      {j k : ℕ} (m : M A) (f : A → M B)
      → Forward j m
      → ((a : A) → Forward k (f a))
      → Forward (j + k) (m >>= f)
  Forward-bind_slack m f hm hf = record {
    at = λ d b d'' e.
        let (a, d', p, q) = bind-some m f d e in
        Reaches-trans (hm.at d a d' p) ((hf a).at d' b d'' q);
  }

  pub Forward-bind :
      (m : M A) (f : A → M B) → Forward 0 m → ((a : A) → Forward 0 (f a)) → Forward 0 (m >>= f)
  Forward-bind m f hm hf = Forward-bind_slack m f hm hf

module _ {A : Type 0} where
  pub Forward-if :
      {k : ℕ} (b : Bool) (m n : M A) → Forward k m → Forward k n → Forward k (if b then m else n)
  Forward-if true m n hm hn = hm
  Forward-if false m n hm hn = hn

  pub Forward-weaken : (m : M A) → Forward 0 m → Forward 1 m
  Forward-weaken m h = record {
    at = λ d a d' e.
        let r = h.at d a d' e in
        record {
          bytes = r.bytes;
          base = r.base;
          forward = omega (arith, r.forward);
          inside = r.inside;
        };
  }

pub ruleset forward_rules =
    (Forward-pure, Forward-gets, Forward-u8, Forward-near_target, Forward-bind, Forward-if)

pub Forward-s8 : Forward 0 s8
unfolding s8
Forward-s8 = search forward_rules

pub Forward-u16 : Forward 0 u16
unfolding u16
Forward-u16 = search forward_rules

pub Forward-s16 : Forward 0 s16
unfolding s16
Forward-s16 = search (forward_rules, Forward-u16)

pub Forward-u32 : Forward 0 u32
unfolding u32
Forward-u32 = search (forward_rules, Forward-u16)

pub ruleset forward_reads = (forward_rules, Forward-s8, Forward-u16, Forward-s16, Forward-u32)

-- Every arm moves forward.
abbrev pub AllForward : ℕ → List Arm → Type 0
AllForward k [] = Unit
AllForward k ((test, body) ∷ arms) = Forward k body × AllForward k arms

pub AllForward-append :
    (k : ℕ) (xs ys : List Arm) → AllForward k xs → AllForward k ys → AllForward k (xs ++ ys)
AllForward-append k [] ys h g = g
AllForward-append k ((test, body) ∷ xs) ys h g = (h.0, AllForward-append k xs ys h.1 g)

pub AllForward-weaken : (xs : List Arm) → AllForward 0 xs → AllForward 1 xs
AllForward-weaken [] h = tt
AllForward-weaken ((test, body) ∷ xs) h = (Forward-weaken body h.0, AllForward-weaken xs h.1)

pub Forward-choose :
    {k : ℕ} (arms : List Arm) (otherwise : M Instruction)
    → AllForward k arms
    → Forward k otherwise
    → Forward k (choose arms otherwise)
unfolding choose
Forward-choose [] otherwise h g = g
Forward-choose ((test, body) ∷ arms) otherwise h g =
    Forward-if test body (choose arms otherwise) h.0 (Forward-choose arms otherwise h.1 g)
