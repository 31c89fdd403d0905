-- ===== src/Server/Routes/Edits.antt =====
-- What the edits of a route leave.
use open_broadcast_intercom.Base.{
  ℕ, ◌≡◌, refl, ◌∙◌, Bool, false, not, ◌&&◌, ◌||◌, List, [], ◌∷◌, ◌==◌, nat_eq, nat_beq_iff, arith,
  if◌then◌else◌, contains, contains-set_extend, contains-set_remove, set_extend, set_remove,
}
use open_broadcast_intercom.Base.Sorted.{nat_ord, mem, mem-sort}
use open_broadcast_intercom.Server.Routes.{toggle_all, remove_all, apply_route_edits}

-- the channel is in the list an odd number of times
abbrev pub is_odd : List ℕ → ℕ → Bool
is_odd [] c = false
is_odd (id ∷ ids) c = let rest = is_odd ids c in if c == id then not rest else rest

toggled :
    (set toggle : List ℕ) (c : ℕ)
    → contains (toggle_all set toggle) c
      ≡ (if is_odd toggle c then not (contains set c) else contains set c)
unfolding toggle_all contains
toggled set [] c = refl
toggled set (id ∷ toggle) c = ground (
  arith,
  toggled (if contains set id then set_remove set id else id ∷ set) toggle c,
  contains-set_remove set id c,
  nat_beq_iff c id,
  nat_beq_iff id c,
)

removed :
    (set remove : List ℕ) (c : ℕ)
    → contains (remove_all set remove) c ≡ (contains set c && not (contains remove c))
unfolding remove_all contains
removed set [] c = ground arith
removed set (id ∷ remove) c = ground (
  arith,
  removed (set_remove set id) remove c,
  contains-set_remove set id c,
  nat_beq_iff c id,
  nat_beq_iff id c,
)

-- After an edit a route has a channel exactly when it had it or the edit adds it, and the edit does
-- not remove it; and the other way round for a channel that the edit toggles an odd number of times.
pub edits_exact :
    (routes add remove toggle : List ℕ) (c : ℕ)
    → mem nat_ord (apply_route_edits routes add remove toggle) c ≡ (
        let kept = (contains routes c || contains add c) && not (contains remove c) in
        if is_odd toggle c then not kept else kept)
unfolding apply_route_edits contains
edits_exact routes add remove toggle c =
    let added = set_extend (set_extend [] routes) add in
    mem-sort nat_ord (toggle_all (remove_all added remove) toggle) c
    ∙ toggled (remove_all added remove) toggle c
    ∙ ground (
      arith,
      removed added remove c,
      contains-set_extend (set_extend [] routes) add c,
      contains-set_extend [] routes c,
    )
