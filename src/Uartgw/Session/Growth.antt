-- ===== src/Uartgw/Session/Growth.antt =====
-- What whole conversations put on the line, and the counter and the identity of the gateway.
use hmgo.Prelude.{ℕ, ◌≡◌, refl, sym, ap, ◌∙◌, Bool, true, false, subst}
use hmgo.Prelude.{[], ◌∷◌, ◌++◌, append-nil, append_assoc, Bytes}
use hmgo.Effect.{Outcome, ok, fail, panic, stuck, Effect, modify, guard}
use hmgo.Effect.{◌>>=◌, bind-eq-ok}
use hmgo.Fault.{Stage, Error}
use hmgo.Uartgw.Command.{UartCmd, app}
use hmgo.Uartgw.Packet.{Addr, Packet, Uartgw}
use hmgo.Uartgw.Session.{expect_cmd, expect_application, staged, wrap, store_version, store_serial}

-- What becomes of the device state.
pub data Move : Type 0 where
  stay to_app : Move

abbrev pub and_then : Move → Move → Move
and_then stay y = y
and_then to_app y = to_app

abbrev pub Moves : Move → ℕ → ℕ → Type 0
Moves stay before later = later ≡ before
Moves to_app before later = later ≡ app

Moves-and_then : (x y : Move) (a b c : ℕ) → Moves x a b → Moves y b c → Moves (and_then x y) a c
Moves-and_then stay stay a b c f g = g ∙ f
Moves-and_then to_app stay a b c f g = g ∙ f
Moves-and_then stay to_app a b c f g = g
Moves-and_then to_app to_app a b c f g = g

-- Where `m` returns, from a gateway of this identity and at the counter `n`, it has put just these
-- bytes on the line, the counter is `n'`, the identity is the same, and the state has moved.
pub record Grows {A : Type 0} (h : Addr) (n : ℕ) (bs : Bytes) (n' : ℕ) (x : Move)
    (m : Effect Uartgw Error A) : Type 0 where
  pub at :
      (u : Uartgw) (a : A) (t : Uartgw)
      → u.hmid ≡ h
      → u.msgcnt ≡ n
      → m u ≡ (ok a, t)
      → (t.port.sent ≡ u.port.sent ++ bs)
        × (t.msgcnt ≡ n')
        × (t.hmid ≡ h)
        × Moves x u.devstate t.devstate

unwrap : {A : Type 0} (stage : Stage) (o : Outcome Error A) {a : A} → wrap stage o ≡ ok a → o ≡ ok a
unfolding wrap
unwrap stage (ok x) h = h
unwrap stage (fail e) h = cc
unwrap stage panic h = cc
unwrap stage stuck h = cc

unstaged :
    {A : Type 0} (stage : Stage) (m : Effect Uartgw Error A) (u : Uartgw) {a : A} {t : Uartgw}
    → staged stage m u ≡ (ok a, t)
    → m u ≡ (ok a, t)
unfolding staged
unstaged stage m u h = cc (unwrap stage (m u).0 (ap (λ o. o.0) h), h)

module _ (h : Addr) {A : Type 0} where
  pub Grows-bind :
      {B : Type 0} (n o p : ℕ) (bs cs : Bytes) (m : Effect Uartgw Error A)
      (f : A → Effect Uartgw Error B) {x y : Move}
      → Grows h n bs o x m
      → ((a : A) → Grows h o cs p y (f a))
      → Grows h n (bs ++ cs) p (and_then x y) (m >>= f)
  Grows-bind n o p bs cs m f {x} {y} gm gf = record {
    at = λ u b t i c e.
        let (a, r, d, g) = bind-eq-ok m f u e in
        let (s1, c1, i1, m1) = gm.at u a r i c d in
        let (s2, c2, i2, m2) = (gf a).at r b t i1 c1 g in
        (
          s2 ∙ ap (λ z. z ++ cs) s1 ∙ append_assoc u.port.sent bs cs,
          c2,
          i2,
          Moves-and_then x y u.devstate r.devstate t.devstate m1 m2,
        );
  }

  -- Nothing is sent in the second part.
  pub Grows-first :
      {B : Type 0} (n o : ℕ) (bs : Bytes) (m : Effect Uartgw Error A)
      (f : A → Effect Uartgw Error B) {x y : Move}
      → Grows h n bs o x m
      → ((a : A) → Grows h o [] o y (f a))
      → Grows h n bs o (and_then x y) (m >>= f)
  Grows-first n o bs m f {x} {y} gm gf =
      subst (λ z. Grows h n z o (and_then x y) (m >>= f)) (append-nil bs)
        (Grows-bind n o o bs [] m f gm gf)

  -- An action that only reads, whether it returns or not.
  pub Grows-same :
      (n : ℕ) (m : Effect Uartgw Error A)
      → ((u : Uartgw)
          → ((m u).1.port.sent ≡ u.port.sent)
            × ((m u).1.msgcnt ≡ u.msgcnt)
            × ((m u).1.hmid ≡ u.hmid)
            × ((m u).1.devstate ≡ u.devstate))
      → Grows h n [] n stay m
  Grows-same n m same = record {
    at = λ u a t i c e.
        let (s, k, j, d) = same u in
        (
          sym (ap (λ o. o.1.port.sent) e) ∙ s ∙ sym (append-nil u.port.sent),
          sym (ap (λ o. o.1.msgcnt) e) ∙ k ∙ c,
          sym (ap (λ o. o.1.hmid) e) ∙ j ∙ i,
          sym (ap (λ o. o.1.devstate) e) ∙ d,
        );
  }

  pub Grows-staged :
      (stage : Stage) (n n' : ℕ) (bs : Bytes) (m : Effect Uartgw Error A) {x : Move}
      → Grows h n bs n' x m
      → Grows h n bs n' x (staged stage m)
  Grows-staged stage n n' bs m g = record {
    at = λ u a t i c e. g.at u a t i c (unstaged stage m u e);
  }

module _ (h : Addr) (n : ℕ) where
  Grows-guard : (b : Bool) (e : Error) → Grows h n [] n stay (guard {S = Uartgw} b e)
  Grows-guard true e = Grows-same h n (guard true e) (λ u. (refl, refl, refl, refl))
  Grows-guard false e = Grows-same h n (guard false e) (λ u. (refl, refl, refl, refl))

  pub Grows-to_app :
      Grows h n [] n to_app (modify {E = Error} (λ (u : Uartgw). record u { devstate = app }))
  Grows-to_app = record {
    at = λ u a t i c e. (
      sym (ap (λ o. o.1.port.sent) e) ∙ sym (append-nil u.port.sent),
      sym (ap (λ o. o.1.msgcnt) e) ∙ c,
      sym (ap (λ o. o.1.hmid) e) ∙ i,
      sym (ap (λ o. o.1.devstate) e),
    );
  }

  pub Grows-expect_cmd : (pkt : Packet) (want : UartCmd) → Grows h n [] n stay (expect_cmd pkt want)
  unfolding expect_cmd
  Grows-expect_cmd pkt want = Grows-guard _ _

  pub Grows-expect_application :
      (pkt : Packet) (want : Bytes) → Grows h n [] n stay (expect_application pkt want)
  unfolding expect_application
  Grows-expect_application pkt want = Grows-guard _ _

  pub Grows-store_version : (bs : Bytes) → Grows h n [] n stay (store_version bs)
  unfolding store_version
  Grows-store_version (a ∷ b ∷ c ∷ d ∷ x ∷ y ∷ z ∷ rest) =
      Grows-same h n _ (λ u. (refl, refl, refl, refl))
  Grows-store_version _ = Grows-same h n _ (λ u. (refl, refl, refl, refl))

  pub Grows-store_serial : (bs : Bytes) → Grows h n [] n stay (store_serial bs)
  unfolding store_serial
  Grows-store_serial [] = Grows-same h n _ (λ u. (refl, refl, refl, refl))
  Grows-store_serial (a ∷ rest) = Grows-same h n _ (λ u. (refl, refl, refl, refl))
