-- ===== src/Xray/Links/Held.antt =====
-- The references that internal/kernel/xray/dispatcher.go holds, over whole runs.
use xboard_node_win.Common.{
  ℕ, ◌+◌, ◌-◌, ℤ, pos, ◌+ℤ◌, ◌-ℤ◌, Text, Dict, lookup, lookup-insert, lookup-erase, is_some,
  if◌then◌else◌, text_key, ◌==ₖ◌, beq_text_iff, List, [], ◌∷◌, none, some, not, Bool, true, false,
  ◌&&◌, count, count-set, get_elem?, ◌≡◌, refl, ◌∙◌, arith, Option-cases, inl, inr,
}
use xboard_node_win.Xray.{
  refs, ips_of, Dispatcher, new_dispatcher, limit_of, update_limits, uncount_ip, Outcome, crashed,
  done, check_device_limit, del_conn, Link, track_link, close_link, dispatch, dispatch_link,
  no_link, with_link,
}
use xboard_node_win.Xray.References.{after, admits, check-Counts, refs-uncount_ip, refs_of_empty}
use xboard_node_win.Xray.Links.{
  System, Op, dispatches, links, closes, updates, opened, opened_if, shut, step, run, start,
  is_live,
}

module _ (email ip : Text) (limited : Bool) where
  -- The references that the dispatcher holds for the user and the IP.
  abbrev pub held : Dispatcher → ℕ
  held d =
      if limited
      then refs ip (ips_of email d.limited_ips)
      else refs ip (ips_of email d.unlimited_ips)

  abbrev pub matches : Text → Text → Bool → Bool
  matches e' ip' is_tcp = is_tcp && (e' ==ₖ email && (ip' ==ₖ ip))

  -- An open TCP link of the user from the IP.
  abbrev pub is_open : Link → Bool
  is_open l = not l.closed && matches l.email l.source_ip l.is_tcp

  -- The user has a limit exactly if the flag says so.
  abbrev pub IsSteady : Op → Type 0
  IsSteady (updates uids limits) =
      is_some (limit_of email (update_limits uids limits new_dispatcher)) ≡ limited
  IsSteady (dispatches inner_ok e' ip' is_tcp) = Unit
  IsSteady (links e' ip' is_tcp) = Unit
  IsSteady (closes i) = Unit

  abbrev pub AllSteady : List Op → Type 0
  AllSteady [] = Unit
  AllSteady (op ∷ ops) = IsSteady op × AllSteady ops

  abbrev Steady : Dispatcher → Type 0
  Steady d =
      (is_some (limit_of email d) ≡ limited)
      × (limited ≡ true → lookup email d.unlimited_ips ≡ none)

  pub record Agrees (s : System) : Type 0 where
    pub references : held s.disp ≡ count is_open s.links
    pub total : s.disp.conn_count ≡ pos (count is_live s.links)
    pub steady : Steady s.disp

  held-del_conn :
      (e' ip' : Text) (d : Dispatcher)
      → Steady d
      → (held (del_conn e' ip' d) ≡ (if e' ==ₖ email && (ip' ==ₖ ip) then held d - 1 else held d))
        × Steady (del_conn e' ip' d)
        × ((del_conn e' ip' d).conn_count ≡ d.conn_count)
  unfolding del_conn lookup
  held-del_conn e' ip' d st = elim (Option-cases (lookup e' d.unlimited_ips)) [
    | inr (ips, u) ↦
        let gone = lookup-insert email e' (uncount_ip ip' ips) d.unlimited_ips in
        let same = refs-uncount_ip ip ip' ips in
        let e = beq_text_iff e' email in
        (
          ground (arith, u, st.0, st.1, gone, same, e, beq_text_iff ip' ip),
          (ground (arith, u, st.0), λ h. ground (arith, u, h, st.1, gone, e)),
          ground (arith, u),
        )
    | inl u ↦ elim (Option-cases (lookup e' d.limited_ips)) [
      | inl l ↦ (
        ground (arith, u, l, st.0, st.1, beq_text_iff e' email),
        (ground (arith, u, l, st.0), λ h. ground (arith, u, l, h, st.1)),
        ground (arith, u, l),
      )
      | inr (ips, l) ↦
          let left = uncount_ip ip' ips in
          let gone = lookup-insert email e' left d.limited_ips in
          let erased = lookup-erase email e' d.limited_ips in
          let same = refs-uncount_ip ip ip' ips in
          (
            ground (
              arith,
              u,
              l,
              st.0,
              st.1,
              gone,
              erased,
              same,
              refs_of_empty ip left,
              beq_text_iff e' email,
            ),
            (ground (arith, u, l, st.0), λ h. ground (arith, u, l, h, st.1)),
            ground (arith, u, l),
          )
    ]
  ]

  -- What a check with the outcome does to the user's references.
  abbrev Checked : Outcome → Bool → Text → Text → Dispatcher → Type 0
  Checked o is_tcp e' ip' d =
      (held (after o d) ≡ (if admits o && matches e' ip' is_tcp then held d + 1 else held d))
      × Steady (after o d)
      × ((after o d).conn_count ≡ d.conn_count)

  check-Checked :
      (is_tcp : Bool) (e' ip' : Text) (d : Dispatcher)
      → Steady d
      → Checked (check_device_limit is_tcp e' ip' d) is_tcp e' ip' d
  check-Checked is_tcp e' ip' d st =
      let c = check-Counts is_tcp e' ip' d email ip in
      let e = beq_text_iff e' email in
      (
        ground (arith, c.0, c.1, st.0, st.1, e),
        (ground (arith, c.4, st.0), λ h. ground (arith, c.2, h, st.0, st.1, e)),
        c.3,
      )

  done-Agrees :
      (rejected inner_ok is_tcp : Bool) (e' ip' : Text) (d' : Dispatcher) (s : System)
      → Checked (done rejected d') is_tcp e' ip' s.disp
      → Agrees s
      → Agrees (
          opened
            (if rejected
              then no_link d'
              else (if inner_ok
                  then with_link (track_link e' ip' is_tcp d')
                  else no_link (if is_tcp then del_conn e' ip' d' else d')))
            s)
  unfolding ◌+ℤ◌
  done-Agrees true inner_ok is_tcp e' ip' d' s c a = record {
    references = ground (arith, a.references, c.0);
    total = c.2 ∙ a.total;
    steady = c.1;
  }
  done-Agrees false true is_tcp e' ip' d' s c a = record {
    references = ground (arith, a.references, c.0);
    total = ground (arith, c.2, a.total);
    steady = c.1;
  }
  done-Agrees false false false e' ip' d' s c a = record {
    references = ground (arith, a.references, c.0);
    total = c.2 ∙ a.total;
    steady = c.1;
  }
  done-Agrees false false true e' ip' d' s c a =
      let del = held-del_conn e' ip' d' c.1 in
      record {
        references = ground (arith, a.references, c.0, del.0);
        total = del.2 ∙ (c.2 ∙ a.total);
        steady = del.1;
      }

  dispatch-Agrees :
      (o : Outcome) (inner_ok is_tcp : Bool) (e' ip' : Text) (s : System)
      → check_device_limit is_tcp e' ip' s.disp ≡ o
      → Checked o is_tcp e' ip' s.disp
      → Agrees s
      → Agrees (opened_if (dispatch inner_ok e' ip' is_tcp s.disp) s)
  unfolding dispatch
  dispatch-Agrees crashed inner_ok is_tcp e' ip' s h c a = rw (h, dispatch) a
  dispatch-Agrees (done true d') inner_ok is_tcp e' ip' s h c a =
      rw (h, dispatch) (done-Agrees true inner_ok is_tcp e' ip' d' s c a)
  dispatch-Agrees (done false d') true is_tcp e' ip' s h c a =
      rw (h, dispatch) (done-Agrees false true is_tcp e' ip' d' s c a)
  dispatch-Agrees (done false d') false is_tcp e' ip' s h c a =
      rw (h, dispatch) (done-Agrees false false is_tcp e' ip' d' s c a)

  dispatch_link-Agrees :
      (o : Outcome) (is_tcp : Bool) (e' ip' : Text) (s : System)
      → check_device_limit is_tcp e' ip' s.disp ≡ o
      → Checked o is_tcp e' ip' s.disp
      → Agrees s
      → Agrees (opened_if (dispatch_link e' ip' is_tcp s.disp) s)
  unfolding dispatch_link
  dispatch_link-Agrees crashed is_tcp e' ip' s h c a = rw (h, dispatch_link) a
  dispatch_link-Agrees (done true d') is_tcp e' ip' s h c a =
      rw (h, dispatch_link) (done-Agrees true true is_tcp e' ip' d' s c a)
  dispatch_link-Agrees (done false d') is_tcp e' ip' s h c a =
      rw (h, dispatch_link) (done-Agrees false true is_tcp e' ip' d' s c a)

  close_link-Agrees :
      (b tcp : Bool) (i : ℕ) (l : Link) (s : System)
      → get_elem? s.links i ≡ some l
      → l.closed ≡ b
      → l.is_tcp ≡ tcp
      → Agrees s
      → Agrees (shut (close_link l s.disp) i s)
  unfolding close_link ◌-ℤ◌
  close_link-Agrees true tcp i l s at b t a =
      rw (b, close_link)
        (record {
          references = ground (arith, a.references, count-set is_open s.links i l l at);
          total = ground (arith, a.total, count-set is_live s.links i l l at);
          steady = a.steady;
        })
  close_link-Agrees false true i l s at b t a =
      let shut_link = record l { closed = true } in
      let opens = count-set is_open s.links i l shut_link at in
      let lives = count-set is_live s.links i l shut_link at in
      let del = held-del_conn l.email l.source_ip s.disp a.steady in
      rw (b, t, close_link)
        (record {
          references = ground (arith, a.references, opens, del.0, b, t);
          total = ground (arith, a.total, lives, del.2, b);
          steady = del.1;
        })
  close_link-Agrees false false i l s at b t a =
      let shut_link = record l { closed = true } in
      let opens = count-set is_open s.links i l shut_link at in
      let lives = count-set is_live s.links i l shut_link at in
      rw (b, t, close_link)
        (record {
          references = ground (arith, a.references, opens, b, t);
          total = ground (arith, a.total, lives, b);
          steady = a.steady;
        })

  step-Agrees : (op : Op) (s : System) → IsSteady op → Agrees s → Agrees (step op s)
  unfolding step update_limits
  step-Agrees (dispatches inner_ok e' ip' is_tcp) s st a =
      dispatch-Agrees (check_device_limit is_tcp e' ip' s.disp) inner_ok is_tcp e' ip' s refl
        (check-Checked is_tcp e' ip' s.disp a.steady) a
  step-Agrees (links e' ip' is_tcp) s st a =
      dispatch_link-Agrees (check_device_limit is_tcp e' ip' s.disp) is_tcp e' ip' s refl
        (check-Checked is_tcp e' ip' s.disp a.steady) a
  step-Agrees (updates uids limits) s st a = record {
    references = a.references;
    total = a.total;
    steady = (st, a.steady.1);
  }
  step-Agrees (closes i) s st a = elim (Option-cases (get_elem? s.links i)) [
    | inl e ↦ rw (e, step) a
    | inr (l, e) ↦ rw (e, step) (close_link-Agrees l.closed l.is_tcp i l s e refl refl a)
  ]

  run-Agrees : (ops : List Op) (s : System) → AllSteady ops → Agrees s → Agrees (run ops s)
  unfolding run
  run-Agrees [] s st a = a
  run-Agrees (op ∷ ops) s st a = run-Agrees ops (step op s) st.1 (step-Agrees op s st.0 a)

  -- As long as the user stays with a limit or without one, after any dispatches, closes and updates
  -- of the limits the dispatcher holds for each IP of the user as many references as there are open
  -- TCP links from it, and counts as many connections as there are open links of all users.
  pub run-held :
      (ops : List Op) (uids limits : Dict Text ℤ)
      → IsSteady (updates uids limits)
      → AllSteady ops
      → (held (run ops (start uids limits)).disp
          ≡ count is_open (run ops (start uids limits)).links)
        × ((run ops (start uids limits)).disp.conn_count
            ≡ pos (count is_live (run ops (start uids limits)).links))
  unfolding update_limits lookup
  run-held ops uids limits st sts =
      let a =
        run-Agrees ops (start uids limits) sts
          (record { references = ground arith; total = refl; steady = (st, λ h. refl) }) in
      (a.references, a.total)
