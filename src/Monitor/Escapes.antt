-- ===== src/Monitor/Escapes.antt =====
-- What the probes answer together: a result for each connector, or an exception that one of them does not catch.
use auto_bot_lbc_pj.Prelude.{
  String, Bool, true, false, List, [], ◌∷◌, Option, none, some, map, ◌≡◌, refl, inl, inr,
  Bool-cases, Result-cases, Result, ok, err, ◌>>=◌, ℕ, sym, subst,
}
use auto_bot_lbc_pj.Apify.Rows.{ApifyAccount}
use auto_bot_lbc_pj.Monitor.Probes.{
  ConnectorProbeResult, ErrorClass, Failure, Call, probe, failure, summarize_apify_accounts,
}
use auto_bot_lbc_pj.Monitor.Connectors.{
  World, probe_database, probe_redis, probe_celery, probe_smstools, probe_iproxy, probe_mailgun,
  probe_browser_use, probe_smsapp, probe_configuration_states, collect_connector_probes,
  catches_iproxy, catches_smstools, catches_http, catches_json, raise_or,
}

-- The call raises an exception of a type that the probe's `except` does not name.
abbrev pub Uncaught : {A : Type 0} → (catches : ErrorClass → Bool) → Call A → Failure → Type 0
Uncaught catches call f = (call.outcome ≡ err f) × (catches f.error_class ≡ false)

-- The probes of the database and of Celery catch every exception.
pub data Escapes (w : World) (f : Failure) : Type 0 where
  redis_url : w.from_url ≡ some f → Escapes w f
  redis_close : w.aclose ≡ some f → Escapes w f
  smstools : Uncaught catches_smstools w.get_sim_list f → Escapes w f
  iproxy : Uncaught catches_iproxy w.get_4g_proxy f → Escapes w f
  mailgun : Uncaught catches_json w.get_domain f → Escapes w f
  browser_use : Uncaught catches_http w.list_tasks f → Escapes w f
  smsapp : Uncaught catches_json w.get_balance f → Escapes w f

abbrev pub connector_names : List String
connector_names =
    "database" ∷ "redis" ∷ "celery" ∷ "smstools" ∷ "iproxy" ∷ "mailgun" ∷ "browser_use" ∷ "apify"
    ∷ "smsapp" ∷ "sentry" ∷ "camoufox" ∷ "obscura" ∷ []

-- A result that returns something that satisfies `P`, or raises something that satisfies `Q`.
abbrev pub Gives : {A : Type 0} → (A → Type 0) → (Failure → Type 0) → Result Failure A → Type 0
Gives P Q (ok a) = P a
Gives P Q (err f) = Q f

Gives->>= :
    {A B : Type 0} (P : A → Type 0) (R : B → Type 0) (Q : Failure → Type 0) (m : Result Failure A)
    (g : A → Result Failure B)
    → Gives P Q m
    → ((a : A) → P a → Gives R Q (g a))
    → Gives R Q (m >>= g)
Gives->>= P R Q (ok a) g h next = next a h
Gives->>= P R Q (err f) g h next = h

abbrev Named : String → ConnectorProbeResult → Type 0
Named name r = r.name ≡ name

probe-Gives :
    {A : Type 0} (show : ℕ → String) (name : String) (configured : Bool)
    (catches : ErrorClass → Bool) (details : A → List (String × String)) (call : Call A)
    → Gives (Named name) (Uncaught catches call) (probe show name configured catches details call)
unfolding probe failure
probe-Gives show name false catches details call = refl
probe-Gives show name true catches details call = elim (Result-cases call.outcome) [
  | inl (a, answered) ↦ rw (answered, probe) refl
  | inr (f, raised) ↦ elim (Bool-cases (catches f.error_class)) [
    | inl caught ↦ rw (raised, caught, probe) refl
    | inr uncaught ↦
        let escapes : probe show name true catches details call ≡ err f =
          rw (raised, uncaught, probe) refl in
        subst (Gives (Named name) (Uncaught catches call)) (sym escapes) (raised, uncaught)
  ]
]

Gives-err :
    {A : Type 0} (P : A → Type 0) (Q R : Failure → Type 0) (m : Result Failure A)
    → ((f : Failure) → Q f → R f)
    → Gives P Q m
    → Gives P R m
Gives-err P Q R (ok a) to h = h
Gives-err P Q R (err f) to h = to f h

raise_or-Gives :
    {A : Type 0} (P : A → Type 0) (Q : Failure → Type 0) (o : Option Failure) (r : Result Failure A)
    → ((f : Failure) → o ≡ some f → Q f)
    → Gives P Q r
    → Gives P Q (raise_or o r)
raise_or-Gives P Q none r raised h = h
raise_or-Gives P Q (some f) r raised h = raised f refl

module _ (w : World) where
  all_caught :
      {A : Type 0} (call : Call A) (f : Failure) → Uncaught (λ c. true) call f → Escapes w f
  all_caught call f h = let no = h.1 in cc

  redis-Gives : Gives (Named "redis") (Escapes w) (probe_redis w)
  unfolding probe_redis
  redis-Gives =
      raise_or-Gives (Named "redis") (Escapes w) w.from_url _ (λ f. redis_url)
        (raise_or-Gives (Named "redis") (Escapes w) w.aclose _ (λ f. redis_close)
          (Gives-err (Named "redis") _ (Escapes w) _ (all_caught w.ping)
            (probe-Gives w.show "redis" true _ _ w.ping)))

  database-Gives : Gives (Named "database") (Escapes w) (probe_database w)
  unfolding probe_database
  database-Gives =
      Gives-err (Named "database") _ (Escapes w) _ (all_caught w.select_1)
        (probe-Gives w.show "database" true _ _ w.select_1)

  celery-Gives : Gives (Named "celery") (Escapes w) (probe_celery w)
  unfolding probe_celery
  celery-Gives =
      Gives-err (Named "celery") _ (Escapes w) _ (all_caught w.ensure_connection)
        (probe-Gives w.show "celery" true _ _ w.ensure_connection)

  smstools-Gives : Gives (Named "smstools") (Escapes w) (probe_smstools w)
  unfolding probe_smstools
  smstools-Gives =
      Gives-err (Named "smstools") _ (Escapes w) _ (λ f. smstools)
        (probe-Gives w.show "smstools" _ _ _ w.get_sim_list)

  iproxy-Gives : Gives (Named "iproxy") (Escapes w) (probe_iproxy w)
  unfolding probe_iproxy
  iproxy-Gives =
      Gives-err (Named "iproxy") _ (Escapes w) _ (λ f. iproxy)
        (probe-Gives w.show "iproxy" _ _ _ w.get_4g_proxy)

  mailgun-Gives : Gives (Named "mailgun") (Escapes w) (probe_mailgun w)
  unfolding probe_mailgun
  mailgun-Gives =
      Gives-err (Named "mailgun") _ (Escapes w) _ (λ f. mailgun)
        (probe-Gives w.show "mailgun" _ _ _ w.get_domain)

  browser_use-Gives : Gives (Named "browser_use") (Escapes w) (probe_browser_use w)
  unfolding probe_browser_use
  browser_use-Gives =
      Gives-err (Named "browser_use") _ (Escapes w) _ (λ f. browser_use)
        (probe-Gives w.show "browser_use" _ _ _ w.list_tasks)

  smsapp-Gives : Gives (Named "smsapp") (Escapes w) (probe_smsapp w)
  unfolding probe_smsapp
  smsapp-Gives =
      Gives-err (Named "smsapp") _ (Escapes w) _ (λ f. smsapp)
        (probe-Gives w.show "smsapp" _ _ _ w.get_balance)

  abbrev AllNamed : List String → List ConnectorProbeResult → Type 0
  AllNamed names results = map (λ r. r.name) results ≡ names

  configuration-Gives :
      Gives
        (AllNamed ("smsapp" ∷ "sentry" ∷ "camoufox" ∷ "obscura" ∷ []))
        (Escapes w)
        (probe_configuration_states w)
  unfolding probe_configuration_states
  configuration-Gives =
      Gives->>= (Named "smsapp") _ (Escapes w) (probe_smsapp w) _ smsapp-Gives (λ r h. rw h refl)

  pub collect_connector_probes-Gives :
      (accounts : List ApifyAccount)
      → Gives (AllNamed connector_names) (Escapes w) (collect_connector_probes w accounts)
  unfolding collect_connector_probes summarize_apify_accounts
  collect_connector_probes-Gives accounts =
      Gives->>= (Named "database") _ (Escapes w) (probe_database w) _ database-Gives λ a ha.
        Gives->>= (Named "redis") _ (Escapes w) (probe_redis w) _ redis-Gives λ b hb.
          Gives->>= (Named "celery") _ (Escapes w) (probe_celery w) _ celery-Gives λ c hc.
            Gives->>= (Named "smstools") _ (Escapes w) (probe_smstools w) _ smstools-Gives λ d hd.
              Gives->>= (Named "iproxy") _ (Escapes w) (probe_iproxy w) _ iproxy-Gives λ e he.
                Gives->>= (Named "mailgun") _ (Escapes w) (probe_mailgun w) _ mailgun-Gives λ g hg.
                  Gives->>= (Named "browser_use") _ (Escapes w) (probe_browser_use w) _
                    browser_use-Gives
                    λ i hi.
                      Gives->>= (AllNamed _) _ (Escapes w) (probe_configuration_states w) _
                        configuration-Gives λ rest hr. rw (ha, hb, hc, hd, he, hg, hi, hr) refl
