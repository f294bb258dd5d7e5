-- ===== src/Mock/Gateway/Writes.antt =====
-- What a write of the gateway leaves alone.
use ouchservice.Prelude.{ℕ, ◌≡◌, refl, ap, ◌∙◌, List, [], ◌∷◌, ◌++◌, take, drop, length, min}
use ouchservice.Net.Soup.{header_codec, make_header, sequenced_data}
use ouchservice.Ouch.Session.State.{SendReply, takes, send_fails}
use ouchservice.Mock.Gateway.State.{Gateway, write_all_loop, write_all, send_sequenced}

-- All but the kernel's side.
abbrev pub IsKept : Gateway → Gateway → Type 0
IsKept g g' =
    (replies : List SendReply) × (wire : List ℕ) × (g' ≡ record g { sends = replies; wire = wire })

write_all_loop-IsKept :
    (replies : List SendReply) (buf : List ℕ) (g : Gateway)
    → IsKept g (write_all_loop replies buf g)
unfolding write_all_loop
write_all_loop-IsKept replies [] g = (replies, g.wire, refl)
write_all_loop-IsKept [] (b ∷ bs) g = ([], g.wire, refl)
write_all_loop-IsKept (send_fails ∷ replies) (b ∷ bs) g = (replies, g.wire, refl)
write_all_loop-IsKept (takes k ∷ replies) (b ∷ bs) g =
    let n = min k (length (b ∷ bs)) in
    write_all_loop-IsKept replies (drop n (b ∷ bs)) (record g { wire = g.wire ++ take n (b ∷ bs) })

pub send_sequenced-IsKept : (msg : List ℕ) (g : Gateway) → IsKept g (send_sequenced msg g)
unfolding send_sequenced write_all
send_sequenced-IsKept msg g =
    let header = header_codec.write (make_header sequenced_data (length msg)) in
    let (r, w, e) = write_all_loop-IsKept g.sends header g in
    let g1 : Gateway = write_all_loop g.sends header g in
    let (r', w', e') = write_all_loop-IsKept g1.sends msg g1 in
    (r', w', e' ∙ ap (λ (k : Gateway). record k { sends = r'; wire = w' }) e)

pub send_sequenced-seen_tokens :
    (msg : List ℕ) (g : Gateway) → (send_sequenced msg g).seen_tokens ≡ g.seen_tokens
send_sequenced-seen_tokens msg g =
    let (r, w, e) = send_sequenced-IsKept msg g in ap (λ (k : Gateway). k.seen_tokens) e

pub send_sequenced-resting :
    (msg : List ℕ) (g : Gateway) → (send_sequenced msg g).resting ≡ g.resting
send_sequenced-resting msg g =
    let (r, w, e) = send_sequenced-IsKept msg g in ap (λ (k : Gateway). k.resting) e

pub send_sequenced-order_id_seq :
    (msg : List ℕ) (g : Gateway) → (send_sequenced msg g).order_id_seq ≡ g.order_id_seq
send_sequenced-order_id_seq msg g =
    let (r, w, e) = send_sequenced-IsKept msg g in ap (λ (k : Gateway). k.order_id_seq) e
