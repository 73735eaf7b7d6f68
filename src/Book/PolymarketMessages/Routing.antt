-- ===== src/Book/PolymarketMessages/Routing.antt =====
-- Which books a market message reaches.
use pmkt_core.Prelude.{
  ℕ, ◌≡◌, refl, ◌∙◌, ap, true, false, not, ◌||◌, List, some, String, arith, string_eq, inl, inr,
  Bool-cases, if◌then◌else◌, ◌==◌, Bool, or_else,
}
use pmkt_core.Collections.Dict.{get, get-put}
use pmkt_core.Collections.Sets.{mem}
use pmkt_core.Text.{truthy}
use pmkt_core.Json.{
  Value, arr, obj, Items, nil, cons, Fields, Python, str_or, str, is_none, is_truthy, get_value,
}
use pmkt_core.Book.Polymarket.{MarketBookState, new_book}
use pmkt_core.Book.PolymarketMessages.{apply_book, apply_price_change}
use pmkt_core.Book.PolymarketMessages.Dispatch.{
  Books, update_book, is_skipped, apply_changes, apply_price_changes, apply_market_message,
}

apart : (x y : String) (s : List String) → mem x s ≡ true → mem y s ≡ false → (x == y) ≡ false
apart x y s a b = elim (Bool-cases (x == y)) [
  | inr n ↦ n
  | inl e ↦ let same = ap (λ z. mem z s) ((string_eq.beq_iff x y).0 e) in absurd (cc (a, b, same))
]

member :
    (b : Bool) (x : String) (s : List String)
    → not (mem (if b then x else "") s) ≡ false
    → mem "" s ≡ false
    → mem x s ≡ true
member true x s k e = ground arith
member false x s k e = absurd (ground arith)

module _ (py : Python) (allowed : List String) (token : String) where
  -- a message for an allowed asset leaves the book of a token that is not
  get-update_book :
      (f : MarketBookState → MarketBookState) (asset_id : Value) (books : Books py)
      → mem token allowed ≡ false
      → mem "" allowed ≡ false
      → is_skipped py (some allowed) asset_id ≡ false
      → get token (update_book py f asset_id books) ≡ get token books
  unfolding update_book is_skipped str_or
  get-update_book f asset_id books n e k =
      let id = str py asset_id in
      let m = member (is_truthy asset_id) id allowed k e in
      elim (Bool-cases (is_none asset_id || not (truthy id))) [
        | inl z ↦ rw z refl
        | inr z ↦ rw z (
            get-put id token (f (or_else (get id books) (new_book id))) books
            ∙ rw (apart id token allowed m n) refl)
      ]

  get-apply_changes :
      (now : ℕ) (message : Fields) (changes : Items) (books : Books py)
      → mem token allowed ≡ false
      → mem "" allowed ≡ false
      → get token (apply_changes py now (some allowed) message changes books) ≡ get token books
  unfolding apply_changes
  get-apply_changes now message nil books n e = refl
  get-apply_changes now message (cons (obj change) rest) books n e =
      let asset_id = get_value change "asset_id" in
      elim (Bool-cases (is_skipped py (some allowed) asset_id)) [
        | inl k ↦ rw k (get-apply_changes now message rest books n e)
        | inr k ↦ rw k (
            get-apply_changes now message rest
              (update_book py (apply_price_change py now change message) asset_id books) n e
            ∙ get-update_book (apply_price_change py now change message) asset_id books n e k)
      ]
  get-apply_changes now message (cons _ rest) books n e =
      get-apply_changes now message rest books n e

  get-apply_price_changes :
      (now : ℕ) (message : Fields) (changes : Value) (books : Books py)
      → mem token allowed ≡ false
      → mem "" allowed ≡ false
      → get token (apply_price_changes py now (some allowed) message changes books)
        ≡ get token books
  unfolding apply_price_changes
  get-apply_price_changes now message (arr changes) books n e =
      get-apply_changes now message changes books n e
  get-apply_price_changes now message _ books n e = refl

  -- With a set of allowed assets that has neither the token nor the empty text, no message changes what
  -- the token's book is, or makes one for it.
  pub get-apply_market_message :
      (now : ℕ) (message : Fields) (books : Books py)
      → mem token allowed ≡ false
      → mem "" allowed ≡ false
      → get token (apply_market_message py now (some allowed) message books) ≡ get token books
  unfolding apply_market_message
  get-apply_market_message now message books n e =
      let event_type =
        str_or py (get_value message "event_type") (str_or py (get_value message "type") "") in
      let asset_id = get_value message "asset_id" in
      elim (Bool-cases (event_type == "book")) [
        | inl b ↦ rw b (elim (Bool-cases (is_skipped py (some allowed) asset_id)) [
          | inl k ↦ rw k refl
          | inr k ↦ rw k (get-update_book (apply_book py now message) asset_id books n e k)
        ])
        | inr b ↦ rw b (elim (Bool-cases (event_type == "price_change")) [
          | inl c ↦
              rw c
                (get-apply_price_changes now message (get_value message "price_changes") books n e)
          | inr c ↦ rw c refl
        ])
      ]
