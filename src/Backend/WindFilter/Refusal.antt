-- ===== src/Backend/WindFilter/Refusal.antt =====
-- When the wind check refuses a request.
use planes.Base.{
  String, ◌≡◌, refl, ◌∙◌, sym, ap, inl, inr, true, false, ◌&&◌, Option, none, some, List, [], ◌∷◌,
  Bool-cases, and_left,
}
use planes.Base.Result.{Result, ok, >>=-eq-ok, ok-injective}
use planes.Json.{Float, Json, Fields, num, obj, get}
use planes.Json.Numbers.{isfinite, to_float, float_ltb, float_leb, float_zero}
use planes.Backend.WindFilter.{
  wind_value, wind_from, wind_of, scenario_wind_mps, wind_keys, rows_of, Limits, collect, judge,
  WindRefusal, against_boards, after_wind, evaluate_wind_against_fleet,
}
use planes.Backend.WindFilter.Largest.{Limit, AllFinite, judge-Exceeds, judge_calm}
use planes.Backend.WindFilter.Order.{leb-of_not-ltb, float_leb_trans}
use planes.Backend.WindFilter.Selection.{
  Offers, collect_sound, collect_complete, model_limit-isfinite,
}

wind_value-isfinite :
    (j : Json) (rest : Result (Option Float)) (w : Float)
    → ((v : Float) → rest ≡ ok (some v) → isfinite v ≡ true)
    → wind_value j rest ≡ ok (some w)
    → isfinite w ≡ true
unfolding wind_value
wind_value-isfinite (num n) rest w good h =
    let (v, read, h') = >>=-eq-ok (to_float n) _ h in
    elim (Bool-cases (isfinite v && float_leb float_zero v)) [
      | inl kept ↦ let same : v ≡ w = cc (rw kept at h') in rw (← same) (and_left _ _ kept)
      | inr dropped ↦ good w (rw dropped at h')
    ]
wind_value-isfinite _ rest w good h = good w h

wind_from-isfinite :
    (keys : List String) (wind : Fields) (w : Float)
    → wind_from keys wind ≡ ok (some w)
    → isfinite w ≡ true
unfolding wind_from
wind_from-isfinite [] wind w h = cc
wind_from-isfinite (key ∷ keys) wind w h =
    wind_value-isfinite (get key wind) (wind_from keys wind) w (wind_from-isfinite keys wind) h

scenario_wind-isfinite :
    (scenario : Fields) (w : Float) → scenario_wind_mps scenario ≡ ok (some w) → isfinite w ≡ true
unfolding scenario_wind_mps
scenario_wind-isfinite scenario w h = read (get "wind" scenario) h
  where
    read : (j : Json) → wind_of j ≡ ok (some w) → isfinite w ≡ true
    read (obj wind) h = wind_from-isfinite wind_keys wind w h
    read _ h = cc

abbrev pub boards_of : Fields → List Json
boards_of scenario = rows_of (get "boards" scenario)

-- What a refusal says: it names the wind of the scenario, its model is one that a board selects and
-- whose limit the catalog knows, and that limit is the largest of all known limits of selected
-- models, each of which is strictly below the wind.
pub record WindExceedsFleet (scenario catalog : Fields) (r : WindRefusal) : Type 0 where
  pub wind : scenario_wind_mps scenario ≡ ok (some r.wind_mps)
  pub offered : Offers catalog (boards_of scenario) r.limiting_model_id r.fleet_max_wind_mps
  pub maximal :
      (id : String) (x : Float)
      → Offers catalog (boards_of scenario) id x
      → float_leb x r.fleet_max_wind_mps ≡ true
  pub above :
      (id : String) (x : Float)
      → Offers catalog (boards_of scenario) id x
      → float_ltb x r.wind_mps ≡ true

-- The outcome of the check once the wind is known.
module _ (catalog : Fields) (wind : Float) (windy : isfinite wind ≡ true) where
  collected-AllFinite :
      (boards : List Json) (l : Limits) → collect catalog boards [] ≡ ok l → AllFinite l.known
  collected-AllFinite boards l h p m =
      let o = collect_sound catalog boards [] l p.0 p.1 h m in
      model_limit-isfinite catalog p.0 p.1 o.known

  strictly_below :
      (x top : Float)
      → isfinite x ≡ true
      → float_leb x top ≡ true
      → float_leb wind top ≡ false
      → float_ltb x wind ≡ true
  strictly_below x top fx below above = elim (Bool-cases (float_ltb x wind)) [
    | inl less ↦ less
    | inr not_less ↦
        let back = leb-of_not-ltb x wind fx windy not_less in
        cc (float_leb_trans wind x top fx back below, above)
  ]

  -- The run over the boards that a refusal, or its absence, comes from.
  record Judged (boards : List Json) (o : Option WindRefusal) : Type 0 where
    limits : Limits
    run : collect catalog boards [] ≡ ok limits
    verdict : judge wind limits.known limits.unknown ≡ o

  against-Judged :
      (b : Json) (boards : List Json) (o : Option WindRefusal)
      → against_boards wind (b ∷ boards) (ok catalog) ≡ ok o
      → Judged (b ∷ boards) o
  unfolding against_boards
  against-Judged b boards o h =
      let (l, run, h') = >>=-eq-ok (collect catalog (b ∷ boards) []) _ h in
      record { limits = l; run = run; verdict = ok-injective h' }

-- On a request that raises nothing, a refusal means that the wind is strictly above every known
-- limit of a selected model, of which the named one is the largest.
pub refusal-WindExceedsFleet :
    (scenario catalog : Fields) (r : WindRefusal)
    → evaluate_wind_against_fleet scenario (ok catalog) ≡ ok (some r)
    → WindExceedsFleet scenario catalog r
unfolding evaluate_wind_against_fleet
refusal-WindExceedsFleet scenario catalog r h =
    let (o, windy, h') = >>=-eq-ok (scenario_wind_mps scenario) _ h in known_wind o windy h'
  where
    judged :
        (w : Float) (boards : List Json)
        → isfinite w ≡ true
        → boards_of scenario ≡ boards
        → against_boards w boards (ok catalog) ≡ ok (some r)
        → scenario_wind_mps scenario ≡ ok (some w)
        → WindExceedsFleet scenario catalog r
    judged w [] fw e h windy = cc
    judged w (b ∷ boards) fw e h windy =
        let j = against-Judged catalog w fw b boards (some r) h in
        let fin = collected-AllFinite catalog w fw (b ∷ boards) j.limits j.run in
        let x = judge-Exceeds w j.limits.known j.limits.unknown r fin j.verdict in
        let within : (id : String) (y : Float)
            → Offers catalog (b ∷ boards) id y
            → float_leb y r.fleet_max_wind_mps ≡ true =
          λ id y o.
            x.maximal (id, y)
              (collect_complete catalog (b ∷ boards) [] j.limits o.board id y j.run o.selected
                o.model o.known refl) in
        record {
          wind = windy ∙ ap (λ v. ok (some v)) (sym x.wind_lem);
          offered = rw e (collect_sound catalog (b ∷ boards) [] j.limits _ _ j.run x.member);
          maximal = rw e within;
          above = rw e (λ id y o. rw x.wind_lem (
              strictly_below catalog w fw y r.fleet_max_wind_mps
                (model_limit-isfinite catalog id y o.known) (within id y o) x.above));
        }

    known_wind :
        (o : Option Float)
        → scenario_wind_mps scenario ≡ ok o
        → after_wind o (boards_of scenario) (ok catalog) ≡ ok (some r)
        → WindExceedsFleet scenario catalog r
    known_wind none windy h = cc
    known_wind (some w) windy h =
        judged w (boards_of scenario) (scenario_wind-isfinite scenario w windy) refl h windy

-- On a request that raises nothing and is not refused, with a given wind and a selected model of
-- known limit, some selected model has a known limit that reaches the wind.
pub no_refusal_within :
    (scenario catalog : Fields) (w : Float) (id : String) (x : Float)
    → evaluate_wind_against_fleet scenario (ok catalog) ≡ ok none
    → scenario_wind_mps scenario ≡ ok (some w)
    → Offers catalog (boards_of scenario) id x
    → (p : Limit) × Offers catalog (boards_of scenario) p.0 p.1 × (float_leb w p.1 ≡ true)
unfolding evaluate_wind_against_fleet
no_refusal_within scenario catalog w id x h windy o = judged (boards_of scenario) (rw windy at h) o
  where
    judged :
        (boards : List Json)
        → against_boards w boards (ok catalog) ≡ ok none
        → Offers catalog boards id x
        → (p : Limit) × Offers catalog boards p.0 p.1 × (float_leb w p.1 ≡ true)
    judged [] h o = absurd o.selected
    judged (b ∷ boards) h o =
        let j =
          against-Judged catalog w (scenario_wind-isfinite scenario w windy) b boards none h in
        let (q, m, calm) =
          judge_calm w j.limits.known j.limits.unknown (id, x) j.verdict
            (collect_complete catalog (b ∷ boards) [] j.limits o.board id x j.run o.selected o.model
              o.known refl) in
        (q, collect_sound catalog (b ∷ boards) [] j.limits q.0 q.1 j.run m, calm)
