-- ===== src/FixturePolicy/Gate.antt =====
-- When the gate lets a live websocket through.
use Prim.Native.String.{String}
use text.Mathlib.TextEquality.{eq_iff}
use shared_ws.Prelude.{
  ◌<◌, ◌≡◌, ◌≢◌, refl, ◌⊎◌, inl, inr, ◌↔◌, Bool, true, false, ◌||◌, Option, none, some, List, [],
  ◌∷◌, arith, if◌then◌else◌,
}
use shared_ws.Types.Basic.{Result, ok, err}
use shared_ws.Frame.{Bytes}
use shared_ws.Text.{codes, is_blank}
use shared_ws.Text.Trim.{is_nil-trim}
use shared_ws.FixturePolicy.{
  WsFixtureRequirement, Host, Checked, str_field, u64_field, is_compliant,
  ensure_live_capture_fixture, ensure_parsed, ensure_read, and_then, exists_if_required,
  ensure_if_required, check_requirement, check_requirements, check_registry, ensure_live_ws_allowed,
  validate_required_ws_contracts, fixture_capture_mode_enabled, live_without_fixtures_allowed,
}

and_then_lem : (a b : Checked) → (and_then a b ≡ ok tt) ↔ ((a ≡ ok tt) × (b ≡ ok tt))
and_then_lem (ok _) b = ground arith
and_then_lem (err e) b = ground arith

override_lem :
    (a b : Bool) (r : Checked) (P : Type 0)
    → (r ≡ ok tt) ↔ P
    → ((if a || b then ok tt else r) ≡ ok tt) ↔ ((a ≡ true) ⊎ (b ≡ true) ⊎ P)
override_lem true b r P h = (λ _. inl refl, λ _. refl)
override_lem false true r P h = (λ _. inr (inl refl), λ _. refl)
override_lem false false r P h = (λ e. inr (inr (h.0 e)), neither)
  where
    neither : (false ≡ true) ⊎ (false ≡ true) ⊎ P → r ≡ ok tt
    neither (inl e) = ground arith
    neither (inr (inl e)) = ground arith
    neither (inr (inr p)) = h.1 p

cons_not_nil : {A : Type 0} (x : A) (xs : List A) → x ∷ xs ≢ []
cons_not_nil x xs = ground arith

module _ {Json : Type 0} (host : Host Json) where
  -- A fixture that says where and when it was captured live.
  abbrev pub IsLiveCapture : String → Type 0
  IsLiveCapture path =
      (bytes : Bytes) × (root : Json) × (host.read_file path ≡ ok bytes)
      × (host.from_slice bytes ≡ ok root)
      × (str_field host root "source" ≡ "live_capture")
      × (0 < u64_field host root "captured_at_ms")
      × (is_blank (codes (str_field host root "capture_command")) ≡ false)
      × (is_blank (codes (str_field host root "exchange_env")) ≡ false)

  abbrev pub IsCaptured : String → Type 0
  IsCaptured path = (host.path_exists path ≡ true) × IsLiveCapture path

  abbrev pub IsCapturedIfRequired : Option String → Type 0
  IsCapturedIfRequired none = Unit {0}
  IsCapturedIfRequired (some path) = IsCaptured path

  abbrev pub AllCaptured : List WsFixtureRequirement → Type 0
  AllCaptured [] = Unit {0}
  AllCaptured (item ∷ items) =
      IsCaptured item.success_path × IsCapturedIfRequired item.error_path × AllCaptured items

  pub is_compliant_lem :
      (root : Json)
      → (is_compliant host root ≡ true) ↔ (
          (str_field host root "source" ≡ "live_capture")
          × (0 < u64_field host root "captured_at_ms")
          × (is_blank (codes (str_field host root "capture_command")) ≡ false)
          × (is_blank (codes (str_field host root "exchange_env")) ≡ false))
  unfolding is_compliant
  is_compliant_lem root = ground (
    arith,
    eq_iff (str_field host root "source") "live_capture",
    is_nil-trim (codes (str_field host root "capture_command")),
    is_nil-trim (codes (str_field host root "exchange_env")),
  )

  parsed_sound :
      (path : String) (bytes : Bytes) (r : Result String Json)
      → host.read_file path ≡ ok bytes
      → host.from_slice bytes ≡ r
      → ensure_parsed host path r ≡ ok tt
      → IsLiveCapture path
  parsed_sound path bytes (err e) b p h = ground arith
  parsed_sound path bytes (ok root) b p h =
      let (s, c, m, x) = (is_compliant_lem root).0 (ground arith) in (bytes, root, b, p, s, c, m, x)

  read_sound :
      (path : String) (r : Result String Bytes)
      → host.read_file path ≡ r
      → ensure_read host path r ≡ ok tt
      → IsLiveCapture path
  read_sound path (err e) b h = ground arith
  read_sound path (ok bytes) b h = parsed_sound path bytes (host.from_slice bytes) b refl h

  ensure_live_capture_fixture_lem :
      (path : String) → (ensure_live_capture_fixture host path ≡ ok tt) ↔ IsLiveCapture path
  unfolding ensure_live_capture_fixture
  ensure_live_capture_fixture_lem path = (
    read_sound path (host.read_file path) refl,
    λ (bytes, root, r, p, s, c, m, x). ground (arith, r, p, is_compliant_lem root, s, c, m, x),
  )

  -- The error fixture, which is optional.
  if_required_lem :
      (path : Option String)
      → ((exists_if_required host path ≡ true) × (ensure_if_required host path ≡ ok tt))
        ↔ IsCapturedIfRequired path
  if_required_lem none = (λ _. tt, λ _. (refl, refl))
  if_required_lem (some path) =
      let l = ensure_live_capture_fixture_lem path in (λ (e, o). (e, l.0 o), λ c. (c.0, l.1 c.1))

  check_requirement_lem :
      (blocked : String) (item : WsFixtureRequirement)
      → (check_requirement host blocked item ≡ ok tt) ↔ (
          (host.path_exists item.success_path ≡ true)
          × (exists_if_required host item.error_path ≡ true)
          × (ensure_live_capture_fixture host item.success_path ≡ ok tt)
          × (ensure_if_required host item.error_path ≡ ok tt))
  unfolding check_requirement
  check_requirement_lem blocked item = ground arith

  check_requirements_lem :
      (blocked : String) (items : List WsFixtureRequirement)
      → (check_requirements host blocked items ≡ ok tt) ↔ AllCaptured items
  unfolding check_requirements
  check_requirements_lem blocked [] = (λ _. tt, λ _. refl)
  check_requirements_lem blocked (item ∷ items) =
      let c = check_requirement_lem blocked item in
      let rest = check_requirements_lem blocked items in
      let live = ensure_live_capture_fixture_lem item.success_path in
      let optional = if_required_lem item.error_path in
      let both = and_then_lem (check_requirement host blocked item) _ in
      (
        λ h.
            let (e, o, l, x) = c.0 (both.0 h).0 in
            ((e, live.0 l), optional.0 (o, x), rest.0 (both.0 h).1),
        λ (success, error, items).
            let (o, x) = optional.1 error in
            both.1 (c.1 (success.0, o, live.1 success.1, x), rest.1 items),
      )

  -- The gate lets a live websocket through exactly when the environment says that fixtures are
  -- captured, or that live connections go without them, or fixture contracts are registered and the
  -- fixture of every one, and its error fixture if it has one, exists and is readable JSON captured
  -- live, with an instant that is not 0, a command and an environment that are not blank. The
  -- validator, which the environment does not override, accepts a list of contracts exactly in that
  -- last case.
  pub ensure_live_ws_allowed_lem :
      (registry : List WsFixtureRequirement)
      → ((ensure_live_ws_allowed host registry ≡ ok tt) ↔ (
          (fixture_capture_mode_enabled host ≡ true)
          ⊎ (live_without_fixtures_allowed host ≡ true)
          ⊎ ((registry ≢ []) × AllCaptured registry)))
        × ((validate_required_ws_contracts host registry ≡ ok tt)
            ↔ ((registry ≢ []) × AllCaptured registry))
  unfolding ensure_live_ws_allowed validate_required_ws_contracts check_registry
  ensure_live_ws_allowed_lem [] = (ground arith, ground arith)
  ensure_live_ws_allowed_lem (item ∷ items) =
      let covers : (blocked : String)
          → (check_requirements host blocked (item ∷ items) ≡ ok tt)
            ↔ ((item ∷ items ≢ []) × AllCaptured (item ∷ items)) =
        λ blocked.
          let l = check_requirements_lem blocked (item ∷ items) in
          (λ h. (cons_not_nil item items, l.0 h), λ c. l.1 c.1) in
      (
        override_lem (fixture_capture_mode_enabled host) (live_without_fixtures_allowed host) _ _
            (covers "live websocket blocked"),
        covers "required websocket fixture validation failed",
      )
