-- ===== src/Server/Reader/Stream.antt =====
-- The header loop on a stream that begins with a complete header block.
use bialet.Prelude.{
  length-take, take-append-drop, leb→le, length-drop, length-append, Bool-cases, ℕ, ◌+◌, ◌-◌, ◌≤◌,
  ◌<◌, ◌≡◌, ◌≢◌, refl, sym, ap, ◌∙◌, [], ◌∷◌, ◌++◌, arith, Bytes, length, take, drop, append_assoc,
  All, inl, inr, leb, ◌==◌,
}
use bialet.Server.HeaderBlock.{header_block_len-le, header_block_len, header_block_len-append}
use bialet.Server.Reader.{Socket, room_size, Head, read_head}

abbrev pub arrived : Socket → Bytes
arrived [] = []
arrived (s ∷ later) = s ++ arrived later

-- Every segment brings a byte.
abbrev pub Flows : Socket → Type 0
Flows = All (λ s. s ≢ [])

-- A text that is long enough holds the whole head of the stream that it begins.
pub append_split :
    (buf t head body : Bytes)
    → buf ++ t ≡ head ++ body
    → length head ≤ length buf
    → (u : Bytes) × (buf ≡ head ++ u)
append_split buf t [] body e h = (buf, refl)
append_split [] t (x ∷ head) body e h = absurd (omega arith)
append_split (c ∷ buf) t (x ∷ head) body e h =
    let (u, q) = append_split buf t head body (cc) (omega arith) in (u, cc)

pub left_over : (n : ℕ) (s : Bytes) → n < length s → drop n s ≢ []
left_over n s h e =
    let z : length (drop n s) ≡ 0 = ap length e in absurd (omega (arith, length-drop n s))

module _ (head body : Bytes) (complete : header_block_len head ≡ length head)
    (some_head : 0 < length head) where
  head_in_stream : header_block_len (head ++ body) ≡ length head
  head_in_stream = header_block_len-append head body (omega arith) ∙ complete

  -- A prefix of the stream that is at least as long as the head has the head's end.
  prefix_end :
      (buf t : Bytes)
      → buf ++ t ≡ head ++ body
      → length head ≤ length buf
      → header_block_len buf ≡ length head
  prefix_end buf t e h =
      let (u, q) = append_split buf t head body e h in
      rw q (header_block_len-append head u (omega arith) ∙ complete)

  -- And a prefix with a complete head has that head.
  complete_end :
      (buf t : Bytes)
      → buf ++ t ≡ head ++ body
      → header_block_len buf ≢ 0
      → header_block_len buf ≡ length head
  complete_end buf t e h =
      sym (header_block_len-append buf t (omega arith)) ∙ ap header_block_len e ∙ head_in_stream

  -- What the loop has when it ends.
  pub record HasHead (h : Head) : Type 0 where
    pub at_end : h.hdr_len ≡ length head
    pub unread : h.buffer ++ arrived h.socket ≡ head ++ body
    pub flows : Flows h.socket
    pub enough : h.hdr_len ≤ length h.buffer

  pub read_head-HasHead :
      (buf : Bytes) (socket : Socket)
      → buf ++ arrived socket ≡ head ++ body
      → Flows socket
      → header_block_len buf ≡ 0
      → length head ≤ room_size
      → HasHead (read_head buf socket)
  unfolding read_head
  read_head-HasHead buf [] e f n fits =
      let sizes : length buf + 0 ≡ length head + length body =
        sym (length-append buf []) ∙ ap length e ∙ length-append head body in
      absurd (omega (arith, prefix_end buf [] e (omega arith)))
  read_head-HasHead buf ([] ∷ later) e f n fits = absurd (f.0 refl)
  read_head-HasHead buf ((c ∷ s) ∷ later) e f n fits =
      let room = room_size - length buf in
      let all = buf ++ (c ∷ s) in
      let part = buf ++ take room (c ∷ s) in
      let regroup = append_assoc buf (c ∷ s) (arrived later) ∙ e in
      elim (Bool-cases (leb room_size (length buf))) [
        | inl full ↦
            let long : room_size ≤ length buf = leb→le _ _ full in
            absurd (omega (arith, prefix_end buf _ e (omega arith)))
        | inr space ↦ elim (Bool-cases (leb (length (c ∷ s)) room)) [
          | inl whole ↦ elim (Bool-cases (header_block_len all == 0)) [
            | inl none_yet ↦
                rw (space, whole, none_yet)
                  (read_head-HasHead all later regroup f.1 (ground arith) fits)
            | inr ended ↦
                rw (space, whole, ended)
                  (record {
                    at_end = complete_end all (arrived later) regroup (ground arith);
                    unread = regroup;
                    flows = f.1;
                    enough = header_block_len-le all;
                  })
          ]
          | inr cut ↦
              let split =
                append_assoc buf (take room (c ∷ s)) (drop room (c ∷ s) ++ arrived later)
                ∙ ap (λ t. buf ++ t)
                    (sym (append_assoc (take room (c ∷ s)) (drop room (c ∷ s)) (arrived later))
                      ∙ ap (λ t. t ++ arrived later) (take-append-drop room (c ∷ s)))
                ∙ e in
              let size : length part ≡ length buf + length (take room (c ∷ s)) =
                length-append buf (take room (c ∷ s)) in
              let short : room < length (c ∷ s) = ground arith in
              rw (space, cut)
                (record {
                  at_end =
                      prefix_end part (drop room (c ∷ s) ++ arrived later) split
                        (omega (arith, length-take room (c ∷ s)));
                  unread = split;
                  flows = (left_over room (c ∷ s) short, f.1);
                  enough = header_block_len-le part;
                })
        ]
      ]
