-- ===== src/Profile/Spec/Settings.antt =====
-- profile/profile.go: the settings that `ClientProfile` hands over as a map and an order.
use tls_forge.Base.{
  ℕ, true, false, List, [], ◌∷◌, none, some, map, ◌≡◌, ◌≢◌, inl, inr, refl, ap₂, ◌∙◌, arith, ◌==◌,
  Option-cases, All,
}
use tls_forge.Profile.{Setting, Http2}
use tls_forge.Profile.Spec.{setting_value, parts_of}

abbrev pub ids : List Setting → List ℕ
ids settings = map (λ (s : Setting). s.id) settings

-- No id is set twice.
abbrev pub DistinctIds : List Setting → Type 0
DistinctIds [] = Unit
DistinctIds (s ∷ settings) = All (λ id. id ≢ s.id) (ids settings) × DistinctIds settings

setting_value-none :
    (id : ℕ) (settings : List Setting)
    → All (λ k. k ≢ id) (ids settings)
    → setting_value settings id ≡ none
unfolding setting_value
setting_value-none id [] h = refl
setting_value-none id (s ∷ settings) (ne, h) =
    let other : (s.id == id) ≡ false = ground arith in
    rw (setting_value-none id settings h, other) refl

setting_value-other :
    (s : Setting) (settings : List Setting) (id : ℕ)
    → id ≢ s.id
    → setting_value (s ∷ settings) id ≡ setting_value settings id
unfolding setting_value
setting_value-other s settings id ne =
    let other : (s.id == id) ≡ false = ground arith in
    elim (Option-cases (setting_value settings id)) [
      | inl none_ ↦ rw (none_, other) refl
      | inr (v, some_) ↦ rw some_ refl
    ]

map-other :
    (s : Setting) (settings : List Setting) (order : List ℕ)
    → All (λ id. id ≢ s.id) order
    → map (setting_value (s ∷ settings)) order ≡ map (setting_value settings) order
map-other s settings [] h = refl
map-other s settings (id ∷ order) (ne, h) =
    ap₂ (◌∷◌) (setting_value-other s settings id ne) (map-other s settings order h)

map-setting_value :
    (settings : List Setting)
    → DistinctIds settings
    → map (setting_value settings) (ids settings) ≡ map (λ (s : Setting). some s.value) settings
map-setting_value [] h = refl
map-setting_value (s ∷ settings) (ne, h) =
    let here : setting_value (s ∷ settings) s.id ≡ some s.value =
      unfold setting_value in
      (let own : (s.id == s.id) ≡ true = ground arith in
        rw (setting_value-none s.id settings ne, own) refl) in
    ap₂ (◌∷◌) here (map-other s settings (ids settings) ne ∙ map-setting_value settings h)

-- The map, read in its order, gives each setting of the profile its own value, if the profile
-- sets no id twice.
pub settings-parts_of :
    (h : Http2)
    → DistinctIds h.settings
    → map ((parts_of h).settings) ((parts_of h).settings_order)
      ≡ map (λ (s : Setting). some s.value) h.settings
unfolding parts_of
settings-parts_of h distinct = map-setting_value h.settings distinct
