-- ===== src/Mqtt/Delivery.antt =====
-- The order and the number of the requests in the channel.
use hmgo.Prelude.{◌≡◌, ◌≤◌, refl, sym, ap, ◌∙◌, arith, List, [], ◌∷◌, ◌++◌}
use hmgo.Prelude.{append-nil, append_assoc, subst, length, length-append}
use hmgo.Prelude.{ltb, Bool-cases, inl, inr, if◌then◌else◌}
use hmgo.Mqtt.{PublishRequest, capacity, offer, Mode, disabled, connected, gone, publish_next}

-- What the main loop and the publisher do to the channel, in any order.
pub data Move : Type 0 where
  push : PublishRequest → Move
  pull : Move

-- The channel and what was published.
abbrev pub Flow : Type 0
Flow = List PublishRequest × List PublishRequest

module _ (mode : Mode) where
  abbrev pub move : Move → Flow → Flow
  move (push r) (requests, published) = (offer r requests, published)
  move pull f = publish_next mode f

  unfoldable pub flow : List Move → Flow → Flow
  flow [] f = f
  flow (m ∷ ms) f = flow ms (move m f)

  -- The requests that were accepted, in the order of the moves.
  unfoldable pub accepted : List Move → Flow → List PublishRequest
  accepted [] f = []
  accepted (push r ∷ ms) f =
      let later = accepted ms (move (push r) f) in
      if ltb (length f.0) capacity then r ∷ later else later
  accepted (pull ∷ ms) f = accepted ms (move pull f)

-- What a publisher in this mode publishes of the requests that it takes.
abbrev pub delivered : Mode → List PublishRequest → List PublishRequest
delivered connected taken = taken
delivered _ taken = []

-- From `f` to `g`, with these requests accepted: some were taken, from the front, and published if
-- there is a broker.
pub record Delivers (mode : Mode) (f g : Flow) (accepts : List PublishRequest) : Type 0 where
  pub taken : List PublishRequest
  pub order_is : taken ++ g.0 ≡ f.0 ++ accepts
  pub published_is : g.1 ≡ f.1 ++ delivered mode taken

delivered-nil : (mode : Mode) → delivered mode [] ≡ []
delivered-nil disabled = refl
delivered-nil connected = refl
delivered-nil gone = refl

delivered-append :
    (mode : Mode) (xs ys : List PublishRequest)
    → delivered mode xs ++ delivered mode ys ≡ delivered mode (xs ++ ys)
delivered-append disabled xs ys = refl
delivered-append connected xs ys = refl
delivered-append gone xs ys = refl

Delivers-none :
    (mode : Mode) (f g : Flow) (accepts : List PublishRequest)
    → g.0 ≡ f.0 ++ accepts
    → g.1 ≡ f.1
    → Delivers mode f g accepts
Delivers-none mode f g accepts e p = record {
  taken = [];
  order_is = e;
  published_is = p ∙ sym (append-nil f.1) ∙ ap (◌++◌ f.1) (sym (delivered-nil mode));
}

Delivers-append :
    (mode : Mode) (f g h : Flow) (xs ys : List PublishRequest)
    → Delivers mode f g xs
    → Delivers mode g h ys
    → Delivers mode f h (xs ++ ys)
Delivers-append mode f g h xs ys x y = record {
  taken = x.taken ++ y.taken;
  order_is =
      append_assoc x.taken y.taken h.0
      ∙ ap (◌++◌ x.taken) y.order_is
      ∙ sym (append_assoc x.taken g.0 ys)
      ∙ ap (λ z. z ++ ys) x.order_is
      ∙ append_assoc f.0 xs ys;
  published_is =
      y.published_is
      ∙ ap (λ z. z ++ delivered mode y.taken) x.published_is
      ∙ append_assoc f.1 (delivered mode x.taken) (delivered mode y.taken)
      ∙ ap (◌++◌ f.1) (delivered-append mode x.taken y.taken);
}

-- What one move adds to the accepted requests.
abbrev added : Move → Flow → List PublishRequest
added (push r) f = if ltb (length f.0) capacity then r ∷ [] else []
added pull f = []

offer-added : (r : PublishRequest) (f : Flow) → offer r f.0 ≡ f.0 ++ added (push r) f
unfolding offer
offer-added r f = elim (Bool-cases (ltb (length f.0) capacity)) [
  | inl room ↦ rw room refl
  | inr full ↦ rw full (sym (append-nil f.0))
]

pull-Delivers : (mode : Mode) (f : Flow) → Delivers mode f (publish_next mode f) []
unfolding publish_next
pull-Delivers gone f = Delivers-none gone f f [] (sym (append-nil f.0)) refl
pull-Delivers disabled ([], published) = Delivers-none disabled _ _ [] refl refl
pull-Delivers connected ([], published) = Delivers-none connected _ _ [] refl refl
pull-Delivers disabled (r ∷ requests, published) = record {
  taken = r ∷ [];
  order_is = ap (◌∷◌ r) (sym (append-nil requests));
  published_is = sym (append-nil published);
}
pull-Delivers connected (r ∷ requests, published) = record {
  taken = r ∷ [];
  order_is = ap (◌∷◌ r) (sym (append-nil requests));
  published_is = refl;
}

move-Delivers : (mode : Mode) (m : Move) (f : Flow) → Delivers mode f (move mode m f) (added m f)
move-Delivers mode (push r) f =
    Delivers-none mode f (move mode (push r) f) (added (push r) f) (offer-added r f) refl
move-Delivers mode pull f = pull-Delivers mode f

accepted_step :
    (mode : Mode) (m : Move) (ms : List Move) (f : Flow)
    → added m f ++ accepted mode ms (move mode m f) ≡ accepted mode (m ∷ ms) f
unfolding accepted
accepted_step mode (push r) ms f = elim (Bool-cases (ltb (length f.0) capacity)) [
  | inl room ↦ rw room refl
  | inr full ↦ rw full refl
]
accepted_step mode pull ms f = refl

move_bounded :
    (mode : Mode) (m : Move) (f : Flow)
    → length f.0 ≤ capacity
    → length (move mode m f).0 ≤ capacity
unfolding offer publish_next
move_bounded mode (push r) (requests, published) h = ground (arith, length-append requests (r ∷ []))
move_bounded gone pull (requests, published) h = h
move_bounded disabled pull ([], published) h = h
move_bounded connected pull ([], published) h = h
move_bounded disabled pull (r ∷ requests, published) h = omega (arith, h)
move_bounded connected pull (r ∷ requests, published) h = omega (arith, h)

-- Whatever the order in which requests are offered and the publisher takes them, the channel never
-- holds more than its capacity, and what the publisher has taken and then what waits in the channel
-- are what was there and the requests that found room, each once and in the order in which they
-- came. With a broker, just the requests that were taken are published, in that order; without one,
-- or after a failed connection, nothing is published.
pub flow_keeps_order :
    (mode : Mode) (ms : List Move) (f : Flow)
    → length f.0 ≤ capacity
    → (length (flow mode ms f).0 ≤ capacity) × Delivers mode f (flow mode ms f) (accepted mode ms f)
unfolding flow
flow_keeps_order mode [] f h =
    (h, unfold accepted in Delivers-none mode f f [] (sym (append-nil f.0)) refl)
flow_keeps_order mode (m ∷ ms) f h =
    let g = move mode m f in
    let (bounded, rest) = flow_keeps_order mode ms g (move_bounded mode m f h) in
    (
      bounded,
      subst (Delivers mode f (flow mode ms g)) (accepted_step mode m ms f) (
          Delivers-append mode f g (flow mode ms g) (added m f) (accepted mode ms g)
            (move-Delivers mode m f) rest),
    )
