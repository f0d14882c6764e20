-- ===== src/Webhooks/Subscriptions.antt =====
-- services/webhooks: service.go, repo.go and domain.go on the subscriptions. What url.Parse reads from
-- an address is an argument, and so is the secret that the generator draws.
use ledgercore.Base.{
  to_micros, any, Bool-cases, inl, inr, sym, ap, ◌∙◌, ◌≤◌, ◌<◌, ℕ, ◌+◌, ◌==◌, ◌≡◌, refl, Bool, true,
  false, not, ◌&&◌, ◌||◌, List, [], ◌∷◌, ◌++◌, map, Option, none, some, Text, codes, text_eq, leb,
  length, find?, Result, ok, err, if◌then◌else◌, arith,
}
use ledgercore.Webhooks.{
  validate_event_types, normalize_event_types, rotation_grace, Subscription, signing_secrets,
}
use ledgercore.Webhooks.Tables.{WebhookError, not_found, invalid, WebhookDb}
use ledgercore.Webhooks.Fanout.{Outside}

-- The scheme and the host of an address, where it can be parsed.
pub record Url : Type 0 where
  pub scheme : Text
  pub host : Text

-- ValidateEndpointURL: whether it returns no error.
abbrev pub validate_url : Option Url → Bool → Bool
validate_url none require_https = false
validate_url (some u) require_https =
    not (length u.host == 0)
    && (text_eq u.scheme (codes "https") || (text_eq u.scheme (codes "http") && not require_https))

abbrev pub new_subscription : Outside → ℕ → Text → Text → List Text → Subscription
new_subscription o tenant url secret types = record {
  id = o.fresh 0;
  tenant_id = tenant;
  url = url;
  secret = secret;
  event_types = types;
  active = true;
  created_at = o.now;
  previous_secret = none;
  previous_secret_expires_at = none;
}

-- CreateSubscription
unfoldable pub create_subscription :
    (Text → Option Url)
    → Outside
    → ℕ
    → Bool
    → Text
    → List Text
    → Text
    → WebhookDb
    → Result WebhookError Subscription × WebhookDb
create_subscription parse_url o tenant require_https url types secret db =
    let normal = normalize_event_types types in
    let s = new_subscription o tenant url secret normal in
    if not (validate_url (parse_url url) require_https) || not (validate_event_types normal)
    then (err invalid, db)
    else (
      ok s,
      record db {
        subscriptions = db.subscriptions ++ (record s { created_at = to_micros s.created_at } ∷ []);
      },
    )

-- SubscriptionPatch
pub record Patch : Type 0 where
  pub url : Option Text
  pub event_types : Option (List Text)
  pub active : Option Bool

abbrev pub patched {ℓ} : {A : Type ℓ} → Option A → A → A
patched none old = old
patched (some new) old = new

abbrev pub apply_patch : Patch → Subscription → Subscription
apply_patch p s = record s {
  url = patched p.url s.url;
  event_types = patched p.event_types s.event_types;
  active = patched p.active s.active;
}

abbrev pub is_own : ℕ → ℕ → Subscription → Bool
is_own tenant id s = s.id == id && s.tenant_id == tenant

abbrev pub update_found :
    ℕ
    → ℕ
    → (Subscription → Subscription)
    → Option Subscription
    → WebhookDb
    → Result WebhookError Subscription × WebhookDb
update_found tenant id f none db = (err not_found, db)
update_found tenant id f (some s) db = (
  ok (f s),
  record db {
    subscriptions =
        map (λ (x : Subscription). if is_own tenant id x then f x else x) db.subscriptions;
  },
)

-- UPDATE subscriptions ... WHERE id = $n AND tenant_id = $m RETURNING ...
unfoldable pub update_subscription_row :
    ℕ → ℕ → (Subscription → Subscription) → WebhookDb → Result WebhookError Subscription × WebhookDb
update_subscription_row tenant id f db =
    update_found tenant id f (find? (is_own tenant id) db.subscriptions) db

abbrev pub bad_url : (Text → Option Url) → Bool → Option Text → Bool
bad_url parse_url require_https none = false
bad_url parse_url require_https (some url) = not (validate_url (parse_url url) require_https)

abbrev pub normal_types : Option (List Text) → Option (List Text)
normal_types none = none
normal_types (some types) = some (normalize_event_types types)

abbrev pub bad_types : Option (List Text) → Bool
bad_types none = false
bad_types (some types) = not (validate_event_types types)

-- UpdateSubscription
unfoldable pub update_subscription :
    (Text → Option Url)
    → ℕ
    → Bool
    → ℕ
    → Patch
    → WebhookDb
    → Result WebhookError Subscription × WebhookDb
update_subscription parse_url tenant require_https id p db =
    let normal = record p { event_types = normal_types p.event_types } in
    if bad_url parse_url require_https p.url || bad_types normal.event_types
    then (err invalid, db)
    else update_subscription_row tenant id (apply_patch normal) db

-- UPDATE subscriptions SET previous_secret = secret, ... WHERE id = $3 AND tenant_id = $4, which
-- tells no more than how many rows there were.
abbrev pub rotated : Text → ℕ → Subscription → Subscription
rotated secret expires s = record s {
  secret = secret;
  previous_secret = some s.secret;
  previous_secret_expires_at = some (to_micros expires);
}

unfoldable pub rotate_row :
    ℕ → ℕ → Text → ℕ → WebhookDb → Result WebhookError (Unit {0}) × WebhookDb
rotate_row tenant id secret expires db =
    if any (is_own tenant id) db.subscriptions
    then (
      ok tt,
      record db {
        subscriptions =
            map (λ (x : Subscription). if is_own tenant id x then rotated secret expires x else x)
              db.subscriptions;
      },
    )
    else (err not_found, db)

-- RotateSecret: the new secret, and the instant at which the old one stops to sign.
abbrev pub with_secret :
    Text
    → ℕ
    → Result WebhookError (Unit {0}) × WebhookDb
    → Result WebhookError (Text × ℕ) × WebhookDb
with_secret secret expires (ok u, db) = (ok (secret, expires), db)
with_secret secret expires (err e, db) = (err e, db)

unfoldable pub rotate_secret :
    Outside → ℕ → ℕ → Text → WebhookDb → Result WebhookError (Text × ℕ) × WebhookDb
rotate_secret o tenant id secret db =
    with_secret secret (o.now + rotation_grace)
      (rotate_row tenant id secret (o.now + rotation_grace) db)

-- purge_expired_previous_secrets, in migration 0004.
abbrev pub has_expired : ℕ → Option Text → Option ℕ → Bool
has_expired now none expires = false
has_expired now (some prev) none = false
has_expired now (some prev) (some expires) = leb expires now

abbrev pub purge_secret : ℕ → Subscription → Subscription
purge_secret now s =
    if has_expired now s.previous_secret s.previous_secret_expires_at
    then record s { previous_secret = none; previous_secret_expires_at = none }
    else s

unfoldable pub purge_expired_previous_secrets : ℕ → WebhookDb → WebhookDb
purge_expired_previous_secrets now db = record db {
  subscriptions = map (purge_secret now) db.subscriptions;
}

-- SigningSecrets
abbrev pub secrets_at : ℕ → Subscription → List Text
secrets_at now s = signing_secrets s.secret s.previous_secret s.previous_secret_expires_at now

-- The sweep of old secrets changes no signature from its instant on.
purge-secrets :
    (sweep t : ℕ) (s : Subscription)
    → sweep ≤ t
    → secrets_at t (purge_secret sweep s) ≡ secrets_at t s
unfolding signing_secrets
purge-secrets sweep t s h = purged s.previous_secret s.previous_secret_expires_at
  where
    purged :
        (prev : Option Text) (expires : Option ℕ)
        → let old = record s { previous_secret = prev; previous_secret_expires_at = expires } in
          secrets_at t (purge_secret sweep old) ≡ secrets_at t old
    purged none expires = refl
    purged (some prev) none = refl
    purged (some prev) (some expires) = ground (arith, h)

-- Updates of the rows that keep what a row is found by.
find?-map :
    (p : Subscription → Bool) (f : Subscription → Subscription) (rows : List Subscription)
    {s : Subscription}
    → ((x : Subscription) → p (f x) ≡ p x)
    → find? p rows ≡ some s
    → find? p (map f rows) ≡ some (f s)
find?-map p f [] keeps found = cc
find?-map p f (x ∷ rows) {s} keeps found = elim (Bool-cases (p x)) [
  | inl e ↦
      let same : x ≡ s = ground (arith, found, e) in rw (keeps x ∙ e) (ap (λ y. some (f y)) same)
  | inr e ↦ rw (keeps x ∙ e) (find?-map p f rows {s = s} keeps (ground (arith, found, e)))
]

rotated-own :
    (tenant id : ℕ) (secret : Text) (expires : ℕ) (x : Subscription)
    → is_own tenant id (if is_own tenant id x then rotated secret expires x else x)
      ≡ is_own tenant id x
rotated-own tenant id secret expires x = elim (Bool-cases (is_own tenant id x)) [
  | inl e ↦ rw e e
  | inr e ↦ rw e e
]

purged-own :
    (tenant id sweep : ℕ) (x : Subscription)
    → is_own tenant id (purge_secret sweep x) ≡ is_own tenant id x
purged-own tenant id sweep x =
    elim (Bool-cases (has_expired sweep x.previous_secret x.previous_secret_expires_at)) [
      | inl e ↦ rw e refl
      | inr e ↦ rw e refl
    ]

any-found :
    (p : Subscription → Bool) (rows : List Subscription) {s : Subscription}
    → find? p rows ≡ some s
    → (any p rows ≡ true) × (p s ≡ true)
any-found p [] found = cc
any-found p (x ∷ rows) {s} found = elim (Bool-cases (p x)) [
  | inl e ↦ let same : x ≡ s = ground (arith, found, e) in (ground (arith, e), ap p (sym same) ∙ e)
  | inr e ↦
      let later = any-found p rows {s = s} (ground (arith, found, e)) in
      (ground (arith, e, later.0), later.1)
]

-- The secrets that the tables sign a delivery of a subscription with.
abbrev pub signed_with : ℕ → Option Subscription → List Text
signed_with t none = []
signed_with t (some s) = secrets_at t s

abbrev pub table_secrets : ℕ → ℕ → ℕ → WebhookDb → List Text
table_secrets t tenant id db = signed_with t (find? (is_own tenant id) db.subscriptions)

rotate_row-found :
    (tenant id : ℕ) (secret : Text) (expires : ℕ) (db : WebhookDb) (s : Subscription)
    → find? (is_own tenant id) db.subscriptions ≡ some s
    → ((rotate_row tenant id secret expires db).0 ≡ ok tt)
      × (find? (is_own tenant id) (rotate_row tenant id secret expires db).1.subscriptions
          ≡ some (rotated secret expires s))
unfolding rotate_row
rotate_row-found tenant id secret expires db s found =
    let (there, own) = any-found (is_own tenant id) db.subscriptions {s = s} found in
    let update : Subscription → Subscription =
      λ x. if is_own tenant id x then rotated secret expires x else x in
    (
      rw there refl,
      rw there (
          find?-map (is_own tenant id) update db.subscriptions {s = s}
            (rotated-own tenant id secret expires) found
          ∙ rw own refl),
    )

rotate_secret-found :
    (o : Outside) (tenant id : ℕ) (secret : Text) (db : WebhookDb) (s : Subscription)
    → find? (is_own tenant id) db.subscriptions ≡ some s
    → let out = rotate_secret o tenant id secret db in
      (out.0 ≡ ok (secret, o.now + rotation_grace))
      × (find? (is_own tenant id) out.1.subscriptions
          ≡ some (rotated secret (o.now + rotation_grace) s))
unfolding rotate_secret rotate_row
rotate_secret-found o tenant id secret db s found =
    let (there, own) = any-found (is_own tenant id) db.subscriptions {s = s} found in
    let row = (rotate_row-found tenant id secret (o.now + rotation_grace) db s found).1 in
    (rw there refl, rw there (rw there at row))

-- When the secret of a subscription with a secret is rotated, the answer is the new secret and the
-- instant 24 hours later; before that instant, cut to the microsecond as the column keeps it, the
-- tables sign its deliveries with the new secret and the old one, in this order, and from then on
-- with the new secret alone; and no sweep of old secrets changes what they sign with from its
-- instant on.
pub rotate_secret-signs :
    (o : Outside) (tenant id : ℕ) (secret : Text) (db : WebhookDb) (s : Subscription)
    → find? (is_own tenant id) db.subscriptions ≡ some s
    → (length s.secret == 0) ≡ false
    → let out = rotate_secret o tenant id secret db in
      let expires = o.now + rotation_grace in
      (out.0 ≡ ok (secret, expires))
      × ((t : ℕ) → t < to_micros expires → table_secrets t tenant id out.1 ≡ secret ∷ s.secret ∷ [])
      × ((t : ℕ) → to_micros expires ≤ t → table_secrets t tenant id out.1 ≡ secret ∷ [])
      × ((sweep t : ℕ)
          → sweep ≤ t
          → table_secrets t tenant id (purge_expired_previous_secrets sweep out.1)
            ≡ table_secrets t tenant id out.1)
unfolding signing_secrets purge_expired_previous_secrets
rotate_secret-signs o tenant id secret db s found some_secret =
    let after : WebhookDb = (rotate_secret o tenant id secret db).1 in
    let s' : Subscription = rotated secret (o.now + rotation_grace) s in
    let (answer, row) = rotate_secret-found o tenant id secret db s found in
    (
      answer,
      (λ t h. ap (signed_with t) row ∙ ground (arith, some_secret, h)),
      (λ t h. ap (signed_with t) row ∙ ground (arith, some_secret, h)),
      λ sweep t h.
          ap (signed_with t) (
            find?-map (is_own tenant id) (purge_secret sweep) after.subscriptions {s = s'}
              (purged-own tenant id sweep) row)
          ∙ (purge-secrets sweep t s' h ∙ sym (ap (signed_with t) row)),
    )
