-- ===== src/MultiSend/ChatIds/Laws.antt =====
-- What a chat list holds, and when two of them name the same chats.
use express_botx.Common.{
  Bool-cases, List, [], ap, arith, bool_ext, false, if◌then◌else◌, inl, inr, length, not, null,
  refl, sym, true, ◌++◌, ◌==◌, ◌||◌, ◌↔◌, ◌∙◌, ◌∷◌, ◌≡◌, ◌≢◌,
}
use express_botx.MultiSend.ChatIds.{all_in, chat_ids_loop, parse_chat_ids, same_chats}
use express_botx.Text.{Str, elem, split, str_eq, trim_space}
use express_botx.Text.Dedup.{
  IsDistinct, dedup, dedup-IsDistinct, dedup_loop, dedup_loop-dedup, elem-dedup,
}
use express_botx.Text.Equality.{str_eq_self, str_eq→eq}
use express_botx.Text.Subset.{Within, Within-sym, length-le_of_Within}

-- The entries of a raw value: its parts, trimmed, without the empty ones.
unfoldable pub entries : List Str → List Str
entries [] = []
entries (p ∷ ps) =
    let rest = entries ps in if null (trim_space p) then rest else trim_space p ∷ rest

chat_ids_loop_lem :
    (seen out ps : List Str) → chat_ids_loop seen out ps ≡ (dedup_loop seen out (entries ps)).1
unfolding chat_ids_loop dedup_loop entries
chat_ids_loop_lem seen out [] = refl
chat_ids_loop_lem seen out (p ∷ ps) = elim (Bool-cases (null (trim_space p))) [
  | inl e ↦ rw e (chat_ids_loop_lem seen out ps)
  | inr e ↦ rw e (elim (Bool-cases (elem (trim_space p) seen)) [
    | inl f ↦ rw f (chat_ids_loop_lem seen out ps)
    | inr f ↦ rw f (chat_ids_loop_lem (trim_space p ∷ seen) (out ++ trim_space p ∷ []) ps)
  ])
]

elem-entries_sound :
    (s : Str) (ps : List Str)
    → elem s (entries ps) ≡ true
    → (p : Str) × (elem p ps ≡ true) × (s ≡ trim_space p) × (s ≢ [])
unfolding entries elem
elem-entries_sound s [] h = cc
elem-entries_sound s (p ∷ ps) h = elim (Bool-cases (null (trim_space p))) [
  | inl e ↦ let (q, i, f, n) = elem-entries_sound s ps (rw e at h) in (q, ground arith, f, n)
  | inr e ↦ elim (Bool-cases (str_eq (trim_space p) s)) [
    | inl y ↦ (p, rw (str_eq_self p), sym (str_eq→eq _ s y), λ z. ground (arith, str_eq→eq _ s y))
    | inr n ↦ let (q, i, f, n') = elem-entries_sound s ps (ground arith) in (q, ground arith, f, n')
  ]
]

elem-entries_complete :
    (s p : Str) (ps : List Str)
    → elem p ps ≡ true
    → s ≡ trim_space p
    → s ≢ []
    → elem s (entries ps) ≡ true
unfolding entries elem
elem-entries_complete s p [] h e n = cc
elem-entries_complete s p (q ∷ ps) h e n = elim (Bool-cases (str_eq q p)) [
  | inl y ↦
      let f : trim_space q ≡ s = ap trim_space (str_eq→eq q p y) ∙ sym e in
      rw f (ground (arith, str_eq_self s))
  | inr m ↦ ground (arith, elem-entries_complete s p ps)
]

-- The chats of a request are the first occurrences of the comma-separated entries, each trimmed,
-- the blank ones dropped: none is listed twice, and the order is that of the request.
pub parse_chat_ids_lem :
    (raw : Str)
    → (parse_chat_ids raw ≡ dedup (entries (split b',' raw))) × IsDistinct (parse_chat_ids raw)
unfolding parse_chat_ids
parse_chat_ids_lem raw =
    let e =
      chat_ids_loop_lem [] [] (split b',' raw) ∙ dedup_loop-dedup (entries (split b',' raw)) in
    (e, rw e (dedup-IsDistinct _))

-- A request addresses a chat exactly if the name is not empty and is some entry of the value,
-- trimmed.
pub elem-parse_chat_ids_iff :
    (raw s : Str)
    → (elem s (parse_chat_ids raw) ≡ true)
      ↔ ((p : Str) × (elem p (split b',' raw) ≡ true) × (s ≡ trim_space p) × (s ≢ []))
elem-parse_chat_ids_iff raw s = (
  λ h. elem-entries_sound s (split b',' raw) (sym same ∙ h),
  λ (p, i, e, n). same ∙ elem-entries_complete s p (split b',' raw) i e n,
)
  where
    same : elem s (parse_chat_ids raw) ≡ elem s (entries (split b',' raw))
    same = ap (elem s) (parse_chat_ids_lem raw).0 ∙ elem-dedup s (entries (split b',' raw))

all_in-Within : (set cs : List Str) → all_in set cs ≡ true → Within cs set
unfolding all_in
all_in-Within set [] h s e = unfold elem in cc
all_in-Within set (c ∷ cs) h s e = elim (Bool-cases (str_eq c s)) [
  | inl y ↦ let same = str_eq→eq c s y in rw (← same) (ground arith)
  | inr n ↦
      all_in-Within set cs (ground arith) s
        (let e' : (str_eq c s || elem s cs) ≡ true = unfold elem in e in ground arith)
]

Within-all_in : (set cs : List Str) → Within cs set → all_in set cs ≡ true
unfolding all_in
Within-all_in set [] w = refl
Within-all_in set (c ∷ cs) w = ground (
  arith,
  w c (unfold elem in ground (arith, str_eq_self c)),
  Within-all_in set cs (λ s e. w s (unfold elem in ground arith)),
)

-- Two lists without repetitions, as `parseChatIDs` gives them, pass `sameChats` exactly if they
-- name the same chats.
pub same_chats_iff :
    (a b : List Str)
    → IsDistinct a
    → IsDistinct b
    → (same_chats a b ≡ true) ↔ ((s : Str) → elem s a ≡ elem s b)
unfolding same_chats
same_chats_iff a b da db = (sound, complete)
  where
    sound :
        (if not (length a == length b) then false else all_in a b) ≡ true
        → (s : Str) → elem s a ≡ elem s b
    sound h s =
        let w : Within b a = all_in-Within a b (ground arith) in
        let l : length a ≡ length b = ground arith in
        bool_ext _ _ (Within-sym b a db w (omega arith) s, w s)

    complete :
        ((s : Str) → elem s a ≡ elem s b)
        → (if not (length a == length b) then false else all_in a b) ≡ true
    complete h = ground (
      arith,
      length-le_of_Within a b da (λ s e. sym (h s) ∙ e),
      length-le_of_Within b a db (λ s e. h s ∙ e),
      Within-all_in a b (λ s e. h s ∙ e),
    )
