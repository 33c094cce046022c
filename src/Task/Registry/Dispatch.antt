-- ===== src/Task/Registry/Dispatch.antt =====
-- Whom a message of the registry reaches. Assertions are not compiled in.
use cyng.Base.{
  ℕ, Bool, false, not, ◌&&◌, List, [], ◌∷◌, ltb, ◌==◌, ==_iff, if◌then◌else◌, ◌≡◌, refl, sym, ap,
  ◌∙◌, arith, Bool-cases, inl, inr,
}
use cyng.Base.Result.{ok}
use cyng.Store.Meta.{Text, text_eq}
use cyng.Task.Channel
use cyng.Task.Channel.{Channel, message, nothing, get_id}
use cyng.Task.Registry.{
  Registry, exclude_call, set_channel, lookup_from, lookup_name, without, dispatch_to, dispatch_all,
  run_call,
}
use cyng.Task.Registry.Shutdown.{among}

abbrev keep : (ℕ → Bool) → List ℕ → List ℕ
keep f [] = []
keep f (p ∷ ps) = let rest = keep f ps in if f p then p ∷ rest else rest

-- No address stands twice in the list.
abbrev pub IsDistinct : List ℕ → Type 0
IsDistinct [] = Unit
IsDistinct (p ∷ ps) = (among p ps ≡ false) × IsDistinct ps

among-keep : (f : ℕ → Bool) (p : ℕ) (ps : List ℕ) → among p (keep f ps) ≡ (among p ps && f p)
among-keep f p [] = refl
among-keep f p (q ∷ ps) = ground (arith, among-keep f p ps)

keep-IsDistinct : (f : ℕ → Bool) (ps : List ℕ) → IsDistinct ps → IsDistinct (keep f ps)
keep-IsDistinct f [] h = tt
keep-IsDistinct f (p ∷ ps) h = elim (Bool-cases (f p)) [
  | inl kept ↦ rw kept (among-keep f p ps ∙ rw h.0 refl, keep-IsDistinct f ps h.1)
  | inr dropped ↦ rw dropped (keep-IsDistinct f ps h.1)
]

abbrev pub addresses : List (ℕ × ℕ) → List ℕ
addresses [] = []
addresses ((id, p) ∷ list) = p ∷ addresses list

module _ {Msg : Type 0} where
  -- What a message to a named slot leaves of a channel.
  abbrev pub reached : Text → Msg → Channel Msg → Channel Msg
  reached slot msg c =
      let n = Channel.lookup slot c.named_slots in
      if c.open_ && ltb n c.signature_count then Channel.post (message n msg nothing) c else c

  dispatch-reached :
      (slot : Text) (msg : Msg) (c : Channel Msg)
      → Channel.dispatch false slot msg c ≡ ok (reached slot msg c)
  unfolding Channel.dispatch Channel.send Channel.is_open
  dispatch-reached slot msg c = refl

  lookup_from-keep :
      (alive : ℕ → Bool) (name : Text) (list : List (ℕ × ℕ)) (channels : ℕ → Channel Msg)
      → lookup_from alive name list channels
        ≡ keep (λ p. alive p && text_eq name (channels p).name) (addresses list)
  unfolding lookup_from
  lookup_from-keep alive name [] channels = refl
  lookup_from-keep alive name ((id, p) ∷ list) channels =
      rw (lookup_from-keep alive name list channels) refl

  without-keep :
      (id : ℕ) (ps : List ℕ) (r : Registry Msg)
      → without id ps r ≡ keep (λ p. not (get_id (r.channels p) == id)) ps
  unfolding without
  without-keep id [] r = refl
  without-keep id (p ∷ ps) r = rw (without-keep id ps r) refl

  dispatch_all-channels :
      (alive : ℕ → Bool) (slot : Text) (msg : Msg) (ps : List ℕ) (r : Registry Msg)
      → IsDistinct ps
      → (r' : Registry Msg) × (dispatch_all false alive slot msg ps r ≡ ok r')
        × ((p : ℕ)
            → r'.channels p
              ≡ (if among p ps then reached slot msg (r.channels p) else r.channels p))
  unfolding dispatch_all dispatch_to
  dispatch_all-channels alive slot msg [] r d = (r, refl, λ p. refl)
  dispatch_all-channels alive slot msg (q ∷ ps) r d =
      let (r', e, f) =
        dispatch_all-channels alive slot msg ps (set_channel q (reached slot msg (r.channels q)) r)
          d.1 in
      (
        r',
        e,
        λ p. f p ∙ elim (Bool-cases (p == q)) [
          | inl same ↦
              let here : p ≡ q = (==_iff p q).0 same in
              let last : among p ps ≡ false = rw here d.0 in
              rw (same, last) (ap (λ n. reached slot msg (r.channels n)) (sym here))
          | inr other ↦ rw other refl
        ],
      )

  -- Without assertions compiled in: the handler of `dispatch_exclude` posts the message to every channel of the list that is alive, has the
  -- name and another id, and is open with a slot of that name; it changes no other channel. No channel
  -- stands twice in the list.
  pub run_call-exclude :
      (alive : ℕ → Bool) (id : ℕ) (name slot : Text) (msg : Msg) (r : Registry Msg)
      → IsDistinct (addresses r.list)
      → (r' : Registry Msg) × (run_call false alive (exclude_call id name slot msg) r ≡ ok r')
        × ((p : ℕ)
            → r'.channels p ≡ (
                if (among p (addresses r.list) && (alive p && text_eq name (r.channels p).name))
                  && not (get_id (r.channels p) == id)
                then reached slot msg (r.channels p)
                else r.channels p))
  unfolding run_call
  run_call-exclude alive id name slot msg r d =
      let has_name : ℕ → Bool = λ p. alive p && text_eq name (r.channels p).name in
      let other : ℕ → Bool = λ p. not (get_id (r.channels p) == id) in
      let found : without id (lookup_name alive name r) r
          ≡ keep other (keep has_name (addresses r.list)) =
        without-keep id (lookup_name alive name r) r
        ∙ ap (keep other) (lookup_from-keep alive name r.list r.channels) in
      let (r', e, f) =
        dispatch_all-channels alive slot msg (keep other (keep has_name (addresses r.list))) r
          (keep-IsDistinct other _ (keep-IsDistinct has_name _ d)) in
      (
        r',
        rw found e,
        λ p.
            f p
            ∙ ap (λ b. if b then reached slot msg (r.channels p) else r.channels p)
                (among-keep other p (keep has_name (addresses r.list))
                  ∙ ap (λ b. b && other p) (among-keep has_name p (addresses r.list))),
      )
