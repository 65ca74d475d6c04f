-- ===== src/Registry/Choice.antt =====
-- The candidates for a model, in the order in which they are tried.
use aperture_router.Prelude.{
  ◌⊎◌, ◌≡◌, refl, Bool, true, false, not, ◌&&◌, ◌||◌, Option, none, some, List, [], ◌∷◌, ◌++◌, any,
  ◌==◌, ==_iff, ==_self, contains, arith, Bool-cases, inl, inr, All, All-append,
}
use aperture_router.Maps
use aperture_router.Maps.{Map}
use aperture_router.Text.{Text, text_eq}
use aperture_router.Config.{Provider}
use aperture_router.Registry.{
  RegistryInner, if_enabled, add_serving, get_provider_for_model, get_providers_for_model,
}
use aperture_router.Registry.Static.{IsNameless, HasOwnNames}

abbrev has_name : Text → List Provider → Bool
has_name n ps = any (λ r. r.name == n) ps

-- What is true of the candidates for a model in a registry: each is enabled and lists the model or
-- is the provider of the model's route, no two have one name, and each enabled provider that lists
-- the model has its name among them.
pub record AreCandidates (m : Text) (inner : RegistryInner) (ps : List Provider) : Type 0 where
  pub fit :
      All
        (λ p.
          (p.enabled ≡ true)
          × ((contains p.models m ≡ true) ⊎ (get_provider_for_model m inner ≡ some p)))
        ps
  pub distinct : HasOwnNames ps
  pub complete :
      (n : Text) (p : Provider)
      → Maps.get n inner.providers ≡ some p
      → p.enabled && contains p.models m ≡ true
      → has_name p.name ps ≡ true

has_name-append :
    (n : Text) (xs ys : List Provider) → has_name n (xs ++ ys) ≡ has_name n xs || has_name n ys
has_name-append n [] ys = refl
has_name-append n (x ∷ xs) ys = ground (arith, has_name-append n xs ys)

append-IsNameless :
    (n : Text) (ps : List Provider) (p : Provider)
    → IsNameless n ps
    → p.name == n ≡ false
    → IsNameless n (ps ++ p ∷ [])
append-IsNameless n [] p a b = (b, tt)
append-IsNameless n (q ∷ ps) p (c, a) b = (c, append-IsNameless n ps p a b)

append-HasOwnNames :
    (ps : List Provider) (p : Provider)
    → HasOwnNames ps
    → has_name p.name ps ≡ false
    → HasOwnNames (ps ++ p ∷ [])
append-HasOwnNames [] p a b = (tt, tt)
append-HasOwnNames (q ∷ ps) p (c, a) b = (
  append-IsNameless q.name ps p c (ground (arith, b, ==_iff q.name p.name, ==_iff p.name q.name)),
  append-HasOwnNames ps p a (ground (arith, b)),
)

if_enabled_on : (p : Provider) → p.enabled ≡ true → if_enabled (some p) ≡ p ∷ []
if_enabled_on p on = ground (arith, on)

module _ (m : Text) (inner : RegistryInner) where
  abbrev IsFit : Provider → Type 0
  IsFit p =
      (p.enabled ≡ true)
      × ((contains p.models m ≡ true) ⊎ (get_provider_for_model m inner ≡ some p))

  -- One turn of the loop: the provider is put behind the others, or not.
  add_serving_turn :
      (result : List Provider) (name : Text) (p : Provider) (providers : Map Text Provider)
      → ((add_serving m result ((name, p) ∷ providers) ≡ add_serving m (result ++ p ∷ []) providers)
          × (p.enabled ≡ true)
          × (contains p.models m ≡ true)
          × (has_name p.name result ≡ false))
        ⊎ ((add_serving m result ((name, p) ∷ providers) ≡ add_serving m result providers)
            × (p.enabled && contains p.models m && not (has_name p.name result) ≡ false))
  unfolding add_serving
  add_serving_turn result name p providers =
      elim (Bool-cases (p.enabled && contains p.models m && not (has_name p.name result))) [
        | inl added ↦ inl (
          ground (arith, added),
          ground (arith, added),
          ground (arith, added),
          ground (arith, added),
        )
        | inr skipped ↦ inr (ground (arith, skipped), skipped)
      ]

  add_serving-All :
      (result : List Provider) (providers : Map Text Provider)
      → All IsFit result
      → All IsFit (add_serving m result providers)
  unfolding add_serving
  add_serving-All result [] f = f
  add_serving-All result ((name, p) ∷ providers) f =
      elim (add_serving_turn result name p providers) [
        | inl (turn, enabled, listed, new) ↦ rw turn (
            add_serving-All (result ++ p ∷ []) providers
              (All-append IsFit result (p ∷ []) f ((enabled, inl listed), tt)))
        | inr (turn, skipped) ↦ rw turn (add_serving-All result providers f)
      ]

  add_serving-HasOwnNames :
      (result : List Provider) (providers : Map Text Provider)
      → HasOwnNames result
      → HasOwnNames (add_serving m result providers)
  unfolding add_serving
  add_serving-HasOwnNames result [] d = d
  add_serving-HasOwnNames result ((name, p) ∷ providers) d =
      elim (add_serving_turn result name p providers) [
        | inl (turn, enabled, listed, new) ↦ rw turn (
            add_serving-HasOwnNames (result ++ p ∷ []) providers
              (append-HasOwnNames result p d new))
        | inr (turn, skipped) ↦ rw turn (add_serving-HasOwnNames result providers d)
      ]

  add_serving-has_name :
      (n : Text) (result : List Provider) (providers : Map Text Provider)
      → has_name n result ≡ true
      → has_name n (add_serving m result providers) ≡ true
  unfolding add_serving
  add_serving-has_name n result [] h = h
  add_serving-has_name n result ((name, p) ∷ providers) h =
      elim (add_serving_turn result name p providers) [
        | inl (turn, enabled, listed, new) ↦ rw turn (
            add_serving-has_name n (result ++ p ∷ []) providers
              (ground (arith, h, has_name-append n result (p ∷ []))))
        | inr (turn, skipped) ↦ rw turn (add_serving-has_name n result providers h)
      ]

  add_serving_head :
      (k : Text) (p : Provider) (result : List Provider) (providers : Map Text Provider)
      → p.enabled && contains p.models m ≡ true
      → has_name p.name (add_serving m result ((k, p) ∷ providers)) ≡ true
  add_serving_head k p result providers s = elim (add_serving_turn result k p providers) [
    | inl (turn, enabled, listed, new) ↦ rw turn (
        add_serving-has_name p.name (result ++ p ∷ []) providers
          (ground (arith, ==_self p.name, has_name-append p.name result (p ∷ []))))
    | inr (turn, skipped) ↦
        rw turn (add_serving-has_name p.name result providers (ground (arith, s, skipped)))
  ]

  add_serving_complete :
      (n : Text) (p : Provider) (result : List Provider) (providers : Map Text Provider)
      → Maps.get n providers ≡ some p
      → p.enabled && contains p.models m ≡ true
      → has_name p.name (add_serving m result providers) ≡ true
  unfolding Maps.get
  add_serving_complete n p result [] h s = absurd (cc h)
  add_serving_complete n p result ((k, q) ∷ providers) h s = elim (Bool-cases (k == n)) [
    | inl same ↦
        let head : q ≡ p = ground (arith, h, same) in
        rw head (add_serving_head k p result providers s)
    | inr other ↦
        let tail : Maps.get n providers ≡ some p = ground (arith, h, other) in
        elim (add_serving_turn result k q providers) [
          | inl (turn, enabled, listed, new) ↦
              rw turn (add_serving_complete n p (result ++ q ∷ []) providers tail s)
          | inr (turn, skipped) ↦ rw turn (add_serving_complete n p result providers tail s)
        ]
  ]

  if_enabled-All :
      (o : Option Provider) → get_provider_for_model m inner ≡ o → All IsFit (if_enabled o)
  if_enabled-All none h = tt
  if_enabled-All (some p) h = elim (Bool-cases p.enabled) [
    | inl on ↦ rw (if_enabled_on p on) ((on, inr h), tt)
    | inr off ↦ rw off tt
  ]

  if_enabled-HasOwnNames : (o : Option Provider) → HasOwnNames (if_enabled o)
  if_enabled-HasOwnNames none = tt
  if_enabled-HasOwnNames (some p) = elim (Bool-cases p.enabled) [
    | inl on ↦ rw on (tt, tt)
    | inr off ↦ rw off tt
  ]

-- For every registry and model, the providers that get_providers_for_model returns are candidates:
-- each is enabled and lists the model or is the provider of its route, no two have one name, and
-- each enabled provider of the registry that lists the model has its name among them.
pub get_providers_for_model-AreCandidates :
    (m : Text) (inner : RegistryInner) → AreCandidates m inner (get_providers_for_model m inner)
unfolding get_providers_for_model
get_providers_for_model-AreCandidates m inner =
    let routed = get_provider_for_model m inner in
    record {
      fit =
          add_serving-All m inner (if_enabled routed) inner.providers
            (if_enabled-All m inner routed refl);
      distinct =
          add_serving-HasOwnNames m inner (if_enabled routed) inner.providers
            (if_enabled-HasOwnNames m inner routed);
      complete =
          λ n p h s. add_serving_complete m inner n p (if_enabled routed) inner.providers h s;
    }
