-- ===== src/Whitelist/Example.antt =====
-- The whitelist file that whitelist_load of src/asyd/core/whitelist.c creates.
use asys.Base.{
  ℕ, ◌≡◌, ◌≢◌, refl, ap, ◌∙◌, Bool, true, false, not, ◌&&◌, none, some, Option, List, [], ◌∷◌, ◌++◌,
  map, ◌==◌, leb, length, codes, All, arith,
}
use asys.Whitelist.{whitelist_load, example_file, file_after}
use asys.Whitelist.Text.{comment, IsLine, file_of, entries_of}
use asys.Whitelist.Printed.{load_file_of}

abbrev texts : List (List ℕ)
texts =
    (codes " /etc/asyd/authorized_agents "
      ++ 0xE2 ∷ 0x80 ∷ 0x94 ∷ codes " authorized agent public keys")
    ∷ []
    ∷ codes " One entry per line:"
    ∷ codes "   <64-char hex Curve25519 pubkey>  [optional-label]"
    ∷ []
    ∷ codes " Example:"
    ∷ codes "   9d0c10df7237b1cf77380ae676ee500fe4da9873476c2e46378cad5e3cc2ba52  my-agent"
    ∷ []
    ∷ codes " To add an agent, run asys_keygen.py on the client, then copy"
    ∷ codes " the printed Fingerprint hex to this file:"
    ∷ codes "   echo \"<pubkey_hex>  <label>\" >> /etc/asyd/authorized_agents"
    ∷ []

example_file_lines : example_file ≡ file_of (map comment texts)
unfolding example_file file_of
example_file_lines = refl

is_one_line : List ℕ → Bool
is_one_line [] = true
is_one_line (x ∷ text) = not (x == b'\n') && is_one_line text

are_comments : List (List ℕ) → Bool
unfolding is_one_line
are_comments [] = true
are_comments (text ∷ more) = leb (length text) 125 && is_one_line text && are_comments more

one_line_text : (text : List ℕ) → is_one_line text ≡ true → All (λ x. x ≢ b'\n') text
unfolding is_one_line
one_line_text [] h = tt
one_line_text (x ∷ text) h = ((λ e. ground (arith, h, e)), one_line_text text (ground (arith, h)))

comments_are_lines :
    (more : List (List ℕ)) → are_comments more ≡ true → All IsLine (map comment more)
unfolding are_comments
comments_are_lines [] h = tt
comments_are_lines (text ∷ more) h = (
  (ground (arith, h), one_line_text text (ground (arith, h))),
  comments_are_lines more (ground (arith, h)),
)

no_entries : (more : List (List ℕ)) → entries_of (map comment more) ≡ []
unfolding entries_of
no_entries [] = refl
no_entries (text ∷ more) = no_entries more

texts_checked : are_comments texts ≡ true
unfolding are_comments is_one_line
texts_checked = refl

example_loads : whitelist_load (some example_file) ≡ []
example_loads =
    ap (λ file. whitelist_load (some file)) example_file_lines
    ∙ (load_file_of (map comment texts) (comments_are_lines texts texts_checked)
          (omega (arith, ap (λ wl. length wl) (no_entries texts)))
        ∙ no_entries texts)

-- Loading the whitelist again, from what a load leaves behind, gives the same list: a file that was
-- missing is left missing or created, and admits no agent either way.
pub whitelist_load-file_after :
    (created : Bool) (file : Option (List ℕ))
    → whitelist_load (file_after created file) ≡ whitelist_load file
unfolding whitelist_load file_after
whitelist_load-file_after created (some file) = refl
whitelist_load-file_after false none = refl
whitelist_load-file_after true none = example_loads
