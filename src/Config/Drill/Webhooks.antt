-- ===== src/Config/Drill/Webhooks.antt =====
-- The webhooks a drill notifies: what a block of them must be, and that its validation says so.
use probavi.Base.{
  ◌≡◌, ◌≢◌, ◌↔◌, refl, subst, ◌⊎◌, inl, inr, Bool, true, false, not, Option, none, some, List, [],
  ◌∷◌, if◌then◌else◌, contains, contains-Mem, Mem-contains, contains-false_iff, Mem, here, there,
  Mem-cons, Distinct, All, append-nil_iff, Bytes,
}
use probavi.Manifest.{is_identifier_part}
use probavi.Config.Drill.{
  NotifyWebhook, Host, Defect, defect_if, is_env_name, notify_outcomes, is_http, validate_url,
  validate_secret_env, validate_on, validate_webhook, validate_webhooks, validate_notify,
  webhook_url_env_name, webhook_url_shape, webhook_secret_env_name, webhook_unknown_outcome,
  webhook_duplicate_outcome,
}
use probavi.Config.Drill.Parts.{unless_nil_iff}

-- The URL stands in the file or in a variable, and is an absolute one of the web.
pub data IsAddress (host : Host) (url env : Bytes) : Type 0 where
  by_variable : url ≡ [] → is_env_name env ≡ true → IsAddress host url env
  literally : env ≡ [] → url ≢ [] → is_http (host.parse_url url) ≡ true → IsAddress host url env

validate_url-IsAddress_iff :
    (host : Host) (url env : Bytes) → (validate_url host url env ≡ []) ↔ IsAddress host url env
unfolding validate_url is_env_name is_identifier_part
validate_url-IsAddress_iff host (c ∷ u) (d ∷ e) =
    ((λ q. cc), λ h. elim h [ by_variable a b ↦ cc | literally a b k ↦ cc ])
validate_url-IsAddress_iff host [] (d ∷ e) = (
  (λ q. by_variable refl ((unless_nil_iff _ webhook_url_env_name).0 q)),
  λ h. elim h [
    | by_variable a b ↦ (unless_nil_iff _ webhook_url_env_name).1 b
    | literally a b k ↦ cc
  ],
)
validate_url-IsAddress_iff host (c ∷ u) [] = (
  (λ q. literally refl (λ z. cc) ((unless_nil_iff _ webhook_url_shape).0 q)),
  λ h. elim h [ by_variable a b ↦ cc | literally a b k ↦ (unless_nil_iff _ webhook_url_shape).1 k ],
)
validate_url-IsAddress_iff host [] [] =
    ((λ q. cc), λ h. elim h [ by_variable a b ↦ cc | literally a b k ↦ absurd (b refl) ])

secret_iff : (s : Bytes) → (validate_secret_env s ≡ []) ↔ ((s ≡ []) ⊎ (is_env_name s ≡ true))
unfolding validate_secret_env
secret_iff [] = ((λ e. inl refl), λ h. refl)
secret_iff (c ∷ s) = (
  (λ e. inr ((unless_nil_iff _ webhook_secret_env_name).0 e)),
  λ h. elim h [ inl k ↦ cc | inr k ↦ (unless_nil_iff _ webhook_secret_env_name).1 k ],
)

-- Only outcomes, each once.
on_iff :
    (seen os : List Bytes)
    → (validate_on seen os ≡ []) ↔ (
        All (λ o. Mem o notify_outcomes) os × Distinct os × ((o : Bytes) → Mem o os → ¬ Mem o seen))
unfolding validate_on
on_iff seen [] = ((λ e. (tt, tt, λ o m. elim m [ ])), λ h. refl)
on_iff seen (o ∷ os) =
    let turn = turn_iff (contains notify_outcomes o) (contains seen o) in
    (
      λ e.
          let (now, later) =
            (append-nil_iff (turn_of (contains notify_outcomes o) (contains seen o)) _).0 e in
          let (known, fresh) = turn.0 now in
          let (a, b, c) = (on_iff (o ∷ seen) os).0 later in
          (
            (contains-Mem notify_outcomes o known, a),
            ((λ m. c o m here), b),
            λ x m k. elim (Mem-cons m) [
              | inl q ↦ (contains-false_iff seen o).0 fresh (subst (λ z. Mem z seen) q k)
              | inr j ↦ c x j (there k)
            ],
          ),
      λ h. (append-nil_iff (turn_of (contains notify_outcomes o) (contains seen o)) _).1 (
        turn.1 (Mem-contains notify_outcomes o h.0.0, (contains-false_iff seen o).1 (h.2 o here)),
        (on_iff (o ∷ seen) os).1 (
          h.0.1,
          h.1.1,
          λ x m k. elim (Mem-cons k) [
            | inl q ↦ h.1.0 (subst (λ z. Mem z os) q m)
            | inr j ↦ h.2 x (there m) j
          ],
        ),
      ),
    )
  where
    turn_of : Bool → Bool → List Defect
    turn_of known dup =
        if not known then webhook_unknown_outcome ∷ [] else defect_if dup webhook_duplicate_outcome

    turn_iff : (a b : Bool) → (turn_of a b ≡ []) ↔ ((a ≡ true) × (b ≡ false))
    turn_iff true true = ((λ e. cc), λ h. cc)
    turn_iff true false = ((λ e. (refl, refl)), λ h. refl)
    turn_iff false b = ((λ e. cc), λ h. cc)

pub record IsWebhook (host : Host) (w : NotifyWebhook) : Type 0 where
  pub address : IsAddress host w.url w.url_env
  pub secret : (w.secret_env ≡ []) ⊎ (is_env_name w.secret_env ≡ true)
  pub outcomes : All (λ o. Mem o notify_outcomes) w.on
  pub once : Distinct w.on

validate_webhook-IsWebhook_iff :
    (host : Host) (w : NotifyWebhook) → (validate_webhook host w ≡ []) ↔ IsWebhook host w
unfolding validate_webhook
validate_webhook-IsWebhook_iff host w = (
  λ e.
      let (ab, c) = (append-nil_iff _ (validate_on [] w.on)).0 e in
      let (a, b) = (append-nil_iff _ (validate_secret_env w.secret_env)).0 ab in
      let (all_known, distinct, _) = (on_iff [] w.on).0 c in
      record {
        address = (validate_url-IsAddress_iff host w.url w.url_env).0 a;
        secret = (secret_iff w.secret_env).0 b;
        outcomes = all_known;
        once = distinct;
      },
  λ h.
      rw
        (
          (validate_url-IsAddress_iff host w.url w.url_env).1 h.address,
          (secret_iff w.secret_env).1 h.secret,
          (on_iff [] w.on).1 (h.outcomes, h.once, λ o m k. elim k [ ]),
        )
        refl,
)

webhooks_iff :
    (host : Host) (ws : List NotifyWebhook)
    → (validate_webhooks host ws ≡ []) ↔ All (IsWebhook host) ws
unfolding validate_webhooks
webhooks_iff host [] = ((λ e. tt), λ h. refl)
webhooks_iff host (w ∷ ws) = (
  λ e.
      let (a, b) = (append-nil_iff (validate_webhook host w) _).0 e in
      ((validate_webhook-IsWebhook_iff host w).0 a, (webhooks_iff host ws).0 b),
  λ h.
      (append-nil_iff _ _).1
        ((validate_webhook-IsWebhook_iff host w).1 h.0, (webhooks_iff host ws).1 h.1),
)

abbrev pub IsNotify : Host → Option (List NotifyWebhook) → Type 0
IsNotify host none = Unit
IsNotify host (some ws) = (ws ≢ []) × All (IsWebhook host) ws

pub validate_notify-IsNotify_iff :
    (host : Host) (n : Option (List NotifyWebhook))
    → (validate_notify host n ≡ []) ↔ IsNotify host n
unfolding validate_notify
validate_notify-IsNotify_iff host none = ((λ e. tt), λ h. refl)
validate_notify-IsNotify_iff host (some []) = ((λ e. cc), λ h. absurd (h.0 refl))
validate_notify-IsNotify_iff host (some (w ∷ ws)) =
    ((λ e. ((λ q. cc), (webhooks_iff host (w ∷ ws)).0 e)), λ h. (webhooks_iff host (w ∷ ws)).1 h.1)
