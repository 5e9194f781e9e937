-- ===== src/EasyServer/Kept.antt =====
-- What one context of an EasyServer keeps.
use flinter.Base.{
  ℕ, ◌+◌, ◌%◌, ◌<◌, ◌≤◌, ◌≡◌, ◌≢◌, refl, ap, ◌∙◌, ◌&&◌, ◌||◌, not, Bool, true, false, leb,
  if◌then◌else◌, Option, none, some, List, arith, Bool-cases, inl, inr,
}
use native.Mathlib.Nat.{add-mod_right}
use flinter.Base.Map.{
  find, put, erase, IsSorted, IsSorted-put, IsSorted-erase, find-put, find-erase,
}
use flinter.EasyServer.{
  IoContext, Outgoing, word, top, is_outgoing, as_outgoing, thread_of, insert_new, allocate_channel,
}

unfoldable pub has : {V : Type 0} → Option V → Bool
has none = false
has (some v) = true

-- A proxy handler is there as long as its channel is known or linked; each channel is on its thread
-- and not above the last number.
pub record IsKept (slots t : ℕ) (ioc : IoContext) : Type 0 where
  pub sorted_i : IsSorted ioc.informations
  pub sorted_h : IsSorted ioc.handlers
  pub sorted_l : IsSorted ioc.linkages
  pub kept :
      (c : ℕ)
      → has (find c ioc.handlers)
        ≡ (is_outgoing c && (has (find c ioc.informations) || has (find c ioc.linkages)))
  pub outward : (c : ℕ) → (has (find c ioc.informations) && not (is_outgoing c)) ≡ false
  pub bound : (c : ℕ) (info : Outgoing) → find c ioc.informations ≡ some info → info.thread_id ≡ t
  pub old_i : (c : ℕ) → ioc.channel < c % top → find c ioc.informations ≡ none
  pub old_l : (c : ℕ) → ioc.channel < c % top → find c ioc.linkages ≡ none
  pub home_i : (c : ℕ) → thread_of slots c ≢ t → find c ioc.informations ≡ none
  pub home_l : (c : ℕ) → thread_of slots c ≢ t → find c ioc.linkages ≡ none
  pub lane : ioc.channel % slots ≡ t
  pub small : ioc.channel < top

pub insert_new-put :
    {V : Type 0} (k : ℕ) (v : V) (l : List (ℕ × V)) → find k l ≡ none → insert_new k v l ≡ put k v l
unfolding insert_new
insert_new-put k v l e = rw (e, insert_new) refl

module _ (slots t : ℕ) (ioc : IoContext) (s : IsKept slots t ioc) where
  pub link-IsKept :
      (c l : ℕ)
      → find c ioc.linkages ≡ none
      → has (find c ioc.informations) ≡ is_outgoing c
      → c % top ≤ ioc.channel
      → thread_of slots c ≡ t
      → IsKept slots t (record ioc { linkages = insert_new c l ioc.linkages })
  unfolding has
  link-IsKept c l e o b h = rw (insert_new-put c l ioc.linkages e) (record {
    sorted_i = s.sorted_i;
    sorted_h = s.sorted_h;
    sorted_l = IsSorted-put c l ioc.linkages s.sorted_l;
    kept = λ j. ground (arith, find-put j c l ioc.linkages, s.kept j, o);
    bound = s.bound;
    outward = s.outward;
    old_i = s.old_i;
    home_i = s.home_i;
    old_l = λ j n. ground (arith, find-put j c l ioc.linkages, s.old_l j n, n, b);
    home_l = λ j n. ground (arith, find-put j c l ioc.linkages, s.home_l j n, n, h);
    lane = s.lane;
    small = s.small;
  })

  -- The linkage leaves; the handler stays.
  pub unlink-IsKept :
      (c : ℕ)
      → has (find c ioc.informations) ≡ is_outgoing c
      → IsKept slots t (record ioc { linkages = erase c ioc.linkages })
  unfolding has
  unlink-IsKept c o = record {
    sorted_i = s.sorted_i;
    sorted_h = s.sorted_h;
    sorted_l = IsSorted-erase c ioc.linkages s.sorted_l;
    kept = λ j. ground (arith, find-erase j c ioc.linkages s.sorted_l, s.kept j, o);
    bound = s.bound;
    outward = s.outward;
    old_i = s.old_i;
    home_i = s.home_i;
    old_l = λ j n. ground (arith, find-erase j c ioc.linkages s.sorted_l, s.old_l j n);
    home_l = λ j n. ground (arith, find-erase j c ioc.linkages s.sorted_l, s.home_l j n);
    lane = s.lane;
    small = s.small;
  }

  -- The linkage, the information and the handler leave.
  pub close-IsKept :
      (c : ℕ)
      → IsKept slots t (record ioc {
        linkages = erase c ioc.linkages;
        informations = erase c ioc.informations;
        handlers = erase c ioc.handlers;
      })
  unfolding has
  close-IsKept c = record {
    sorted_i = IsSorted-erase c ioc.informations s.sorted_i;
    sorted_h = IsSorted-erase c ioc.handlers s.sorted_h;
    sorted_l = IsSorted-erase c ioc.linkages s.sorted_l;
    kept = λ j. ground (
      arith,
      find-erase j c ioc.linkages s.sorted_l,
      find-erase j c ioc.informations s.sorted_i,
      find-erase j c ioc.handlers s.sorted_h,
      s.kept j,
    );
    bound = λ j i e'. ground (arith, find-erase j c ioc.informations s.sorted_i, s.bound j i, e');
    outward = λ j. ground (arith, find-erase j c ioc.informations s.sorted_i, s.outward j);
    old_i = λ j n. ground (arith, find-erase j c ioc.informations s.sorted_i, s.old_i j n);
    home_i = λ j n. ground (arith, find-erase j c ioc.informations s.sorted_i, s.home_i j n);
    old_l = λ j n. ground (arith, find-erase j c ioc.linkages s.sorted_l, s.old_l j n);
    home_l = λ j n. ground (arith, find-erase j c ioc.linkages s.sorted_l, s.home_l j n);
    lane = s.lane;
    small = s.small;
  }

  -- The information leaves, and the linkage stays.
  pub forget-IsKept :
      {l : ℕ} (c : ℕ)
      → find c ioc.linkages ≡ some l
      → IsKept slots t (record ioc { informations = erase c ioc.informations })
  unfolding has
  forget-IsKept c e = record {
    sorted_i = IsSorted-erase c ioc.informations s.sorted_i;
    sorted_h = s.sorted_h;
    sorted_l = s.sorted_l;
    kept = λ j. ground (arith, find-erase j c ioc.informations s.sorted_i, s.kept j, e);
    bound = λ j i e'. ground (arith, find-erase j c ioc.informations s.sorted_i, s.bound j i, e');
    outward = λ j. ground (arith, find-erase j c ioc.informations s.sorted_i, s.outward j);
    old_i = λ j n. ground (arith, find-erase j c ioc.informations s.sorted_i, s.old_i j n);
    home_i = λ j n. ground (arith, find-erase j c ioc.informations s.sorted_i, s.home_i j n);
    old_l = s.old_l;
    home_l = s.home_l;
    lane = s.lane;
    small = s.small;
  }

  pub advance-IsKept :
      ioc.channel + slots < top → IsKept slots t (record ioc { channel = ioc.channel + slots })
  advance-IsKept b = record {
    sorted_i = s.sorted_i;
    sorted_h = s.sorted_h;
    sorted_l = s.sorted_l;
    kept = s.kept;
    bound = s.bound;
    outward = s.outward;
    old_i = λ j n. s.old_i j (omega arith);
    old_l = λ j n. s.old_l j (omega arith);
    home_i = s.home_i;
    home_l = s.home_l;
    lane = add-mod_right ioc.channel slots ∙ s.lane;
    small = b;
  }

  pub connect-IsKept :
      (c h : ℕ) (info : Outgoing)
      → find c ioc.informations ≡ none
      → find c ioc.linkages ≡ none
      → is_outgoing c ≡ true
      → c % top ≤ ioc.channel
      → thread_of slots c ≡ t
      → info.thread_id ≡ t
      → IsKept slots t (record ioc {
        handlers = insert_new c h ioc.handlers;
        informations = insert_new c info ioc.informations;
      })
  unfolding has
  connect-IsKept c h info e f o b w own =
      rw
        (
          insert_new-put c info ioc.informations e,
          insert_new-put c h ioc.handlers (ground (arith, s.kept c, e, f)),
        )
        (record {
          sorted_i = IsSorted-put c info ioc.informations s.sorted_i;
          sorted_h = IsSorted-put c h ioc.handlers s.sorted_h;
          sorted_l = s.sorted_l;
          kept = λ j.
              ground (
                arith,
                find-put j c info ioc.informations,
                find-put j c h ioc.handlers,
                s.kept j,
                o,
              );
          bound =
              λ j i e'. ground (arith, find-put j c info ioc.informations, s.bound j i, e', own);
          outward = λ j. ground (arith, find-put j c info ioc.informations, s.outward j, o);
          old_i = λ j n. ground (arith, find-put j c info ioc.informations, s.old_i j n, n, b);
          home_i = λ j n. ground (arith, find-put j c info ioc.informations, s.home_i j n, n, w);
          old_l = s.old_l;
          home_l = s.home_l;
          lane = s.lane;
          small = s.small;
        })

-- The number that a context gives next.
abbrev pub next_number : ℕ → Bool → IoContext → ℕ
next_number slots is_incoming ioc =
    if is_incoming then ioc.channel + slots else ioc.channel + slots + top

pub allocate_channel-next :
    (slots : ℕ) (is_incoming : Bool) (ioc : IoContext)
    → ioc.channel + slots < top
    → allocate_channel slots is_incoming ioc
      ≡ (next_number slots is_incoming ioc, record ioc { channel = ioc.channel + slots })
unfolding allocate_channel as_outgoing
allocate_channel-next slots is_incoming ioc b =
    rw (small_mod (ioc.channel + slots) b)
      (ap (λ c. (c, record ioc { channel = ioc.channel + slots })) (ground arith))
  where
    small_mod : (n : ℕ) → n < top → n % word ≡ n
    small_mod n h = omega arith

-- It is on its thread, new there, and outgoing if it is meant to be.
pub next_number-IsNew :
    (slots t : ℕ) (is_incoming : Bool) (ioc : IoContext)
    → IsKept slots t ioc
    → 0 < slots
    → ioc.channel + slots < top
    → let c = next_number slots is_incoming ioc in
      (c % top ≡ ioc.channel + slots)
      × ((is_outgoing c ≡ not is_incoming)
          × ((thread_of slots c ≡ t)
              × ((find c ioc.informations ≡ none) × (find c ioc.linkages ≡ none))))
unfolding is_outgoing thread_of
next_number-IsNew slots t is_incoming ioc s p b =
    let c = next_number slots is_incoming ioc in
    let m : c % top ≡ ioc.channel + slots = number-mod is_incoming in
    (
      m,
      (
        outwards is_incoming,
        (
          rw m (add-mod_right ioc.channel slots ∙ s.lane),
          (s.old_i c (omega (arith, m)), s.old_l c (omega (arith, m))),
        ),
      ),
    )
  where
    number-mod : (i : Bool) → next_number slots i ioc % top ≡ ioc.channel + slots
    number-mod true = omega arith
    number-mod false = omega arith

    outwards : (i : Bool) → is_outgoing (next_number slots i ioc) ≡ not i
    outwards true = ground arith
    outwards false = ground arith

pub known-bound :
    {info : Outgoing} (slots t c : ℕ) (ioc : IoContext)
    → IsKept slots t ioc
    → find c ioc.informations ≡ some info
    → c % top ≤ ioc.channel
known-bound slots t c ioc s f = elim (Bool-cases (leb (c % top) ioc.channel)) [
  | inl low ↦ ground (arith, low)
  | inr high ↦ absurd (ground (arith, f, s.old_i c (ground (arith, high))))
]

-- A channel that is neither known nor linked has no handler.
pub no_handler :
    (slots t c : ℕ) (ioc : IoContext)
    → IsKept slots t ioc
    → find c ioc.informations ≡ none
    → find c ioc.linkages ≡ none
    → find c ioc.handlers ≡ none
unfolding has
no_handler slots t c ioc s e f = ground (arith, s.kept c, e, f)
