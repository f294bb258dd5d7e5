-- ===== src/Ouch/Client/Refuse.antt =====
-- What a request may change, and when.
use ouchservice.Prelude.{
  ℕ, ◌≡◌, refl, Bool, true, false, List, Bool-cases, inl, inr, ◌⊎◌, ap, ◌∙◌, sym, if◌then◌else◌,
  ◌||◌, ltb, ◌==◌, length,
}
use ouchservice.Core.Types.{
  Side, ErrorCategory, Error, Result, ok, err, make_error, is_valid_open_close_for_replace,
  open_close_byte,
}
use ouchservice.Core.Alpha.{OrderToken}
use ouchservice.Domain.Throttler.{Throttler, try_acquire}
use ouchservice.Domain.TokenRegistry.{TokenRegistry}
use ouchservice.Ouch.Client.{
  Client, PlaceArgs, ReplaceArgs, MassQuoteArgs, when_acquired, on_token, choose_token, place_with,
  replace_with, mass_quote_with, place, replace, cancel_by_token, cancel_by_order_id, mass_quote,
  is_empty, with_throttler, throttled,
}

-- The five requests of the client.
pub data Request : Type 0 where
  enter : PlaceArgs → Request
  amend : ReplaceArgs → Request
  cancel : List ℕ → Request
  cancel_id : ℕ → Side → ℕ → Request
  quote : MassQuoteArgs → Request

unfoldable pub handle : ℕ → Request → Client → Client
handle now (enter args) c = (place now args c).1
handle now (amend args) c = (replace now args c).1
handle now (cancel token) c = (cancel_by_token now token c).1
handle now (cancel_id book side id) c = (cancel_by_order_id now book side id c).1
handle now (quote args) c = (mass_quote now args c).1

-- Nothing but the throttler differs.
pub record IsUntouched (before after : Client) : Type 0 where
  pub session : after.session ≡ before.session
  pub tokens : after.tokens ≡ before.tokens
  pub book : after.book ≡ before.book

-- The request was granted by the throttler, or it left all but the throttler alone; the throttler
-- was asked once or not at all.
abbrev pub IsGuarded : ℕ → Client → Client → Type 0
IsGuarded now before after =
    (((try_acquire 0 now before.throttler).0 ≡ true) ⊎ IsUntouched before after)
    × ((after.throttler ≡ (try_acquire 0 now before.throttler).1)
        ⊎ (after.throttler ≡ before.throttler))

untouched : (now : ℕ) (c : Client) → IsGuarded now c c
untouched now c = (inr (record { session = refl; tokens = refl; book = refl }), inr refl)

on_token-throttler :
    (r : Result OrderToken × TokenRegistry) (c : Client)
    (next : OrderToken → Client → Result OrderToken × Client)
    → ((tok : OrderToken) (d : Client) → (next tok d).1.throttler ≡ d.throttler)
    → (on_token r c next).1.throttler ≡ c.throttler
on_token-throttler (ok tok, r) c next same = same tok (record c { tokens = r })
on_token-throttler (err e, r) c next same = refl

when_acquired-IsGuarded {ℓ} :
    {A : Type ℓ} (now : ℕ) (c : Client) (e : Error) (next : Client → Result A × Client)
    → ((d : Client) → (next d).1.throttler ≡ d.throttler)
    → IsGuarded now c (when_acquired (try_acquire 0 now c.throttler) c e next).1
when_acquired-IsGuarded now c e next same = split (try_acquire 0 now c.throttler) refl
  where
    split :
        (r : Bool × Throttler)
        → try_acquire 0 now c.throttler ≡ r
        → IsGuarded now c (when_acquired r c e next).1
    split (true, t) p = (
      inl (ap (λ (z : Bool × Throttler). z.0) p),
      inl (same (with_throttler t c) ∙ sym (ap (λ (z : Bool × Throttler). z.1) p)),
    )
    split (false, t) p = (
      inr (record { session = refl; tokens = refl; book = refl }),
      inl (sym (ap (λ (z : Bool × Throttler). z.1) p)),
    )

place-IsGuarded : (now : ℕ) (args : PlaceArgs) (c : Client) → IsGuarded now c (place now args c).1
unfolding place
place-IsGuarded now args c = when_acquired-IsGuarded now c _ _ λ d.
    on_token-throttler (choose_token "token already used: " args.explicit_token d.tokens) d
      (place_with args) (λ tok d'. unfold place_with in refl)

replace-IsGuarded :
    (now : ℕ) (args : ReplaceArgs) (c : Client) → IsGuarded now c (replace now args c).1
unfolding replace
replace-IsGuarded now args c =
    split (is_valid_open_close_for_replace (open_close_byte args.open_close))
  where
    granted : Client → Result OrderToken × Client
    granted d =
        if is_empty args.existing_token
        then (err (make_error ErrorCategory.validation "existing_token required"), d)
        else on_token (choose_token "new_token already used: " args.new_token d.tokens) d
            (replace_with args)

    same : (d : Client) → (granted d).1.throttler ≡ d.throttler
    same d = elim (Bool-cases (is_empty args.existing_token)) [
      | inl none_given ↦ rw none_given refl
      | inr given ↦ rw given (
          on_token-throttler (choose_token "new_token already used: " args.new_token d.tokens) d
            (replace_with args) (λ tok d'. unfold replace_with in refl))
    ]

    split :
        (legal : Bool)
        → IsGuarded now c
            (if legal then when_acquired (try_acquire 0 now c.throttler) c throttled granted else (
              err (
                  make_error ErrorCategory.validation
                    "OpenClose value illegal in Replace per Spec 4.1.2.2 (allowed: ReplaceKeep=0, ReplaceDefault=4)"),
              c,
            )).1
    split true = when_acquired-IsGuarded now c throttled granted same
    split false = untouched now c

mass_quote-IsGuarded :
    (now : ℕ) (args : MassQuoteArgs) (c : Client) → IsGuarded now c (mass_quote now args c).1
unfolding mass_quote
mass_quote-IsGuarded now args c = split (length args.entries == 0 || ltb 5 (length args.entries))
  where
    granted : Client → Result OrderToken × Client
    granted d =
        on_token (choose_token "MassQuote token already used: " args.token d.tokens) d
          (mass_quote_with args)

    split :
        (illegal : Bool)
        → IsGuarded now c
            (if illegal
              then (err (make_error ErrorCategory.validation "MassQuote requires 1..5 entries"), c)
              else when_acquired (try_acquire 0 now c.throttler) c throttled granted).1
    split true = untouched now c
    split false = when_acquired-IsGuarded now c throttled granted λ d.
        on_token-throttler (choose_token "MassQuote token already used: " args.token d.tokens) d
          (mass_quote_with args) (λ tok d'. unfold mass_quote_with in refl)

-- No request reaches the session, the tokens or the book unless the throttler granted it, and each
-- request asks the throttler at most once.
pub handle-IsGuarded : (now : ℕ) (q : Request) (c : Client) → IsGuarded now c (handle now q c)
unfolding handle
handle-IsGuarded now (enter args) c = place-IsGuarded now args c
handle-IsGuarded now (amend args) c = replace-IsGuarded now args c
handle-IsGuarded now (cancel token) c =
    unfold cancel_by_token in when_acquired-IsGuarded now c _ _ λ d. refl
handle-IsGuarded now (cancel_id book side id) c =
    unfold cancel_by_order_id in when_acquired-IsGuarded now c _ _ λ d. refl
handle-IsGuarded now (quote args) c = mass_quote-IsGuarded now args c
