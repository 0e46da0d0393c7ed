-- ===== src/Chat/Tests.antt =====
-- Runs of the reader and of the server.
use operating_system_project.Chat.Cipher.{encrypt-decrypts, encrypt, shift_byte}
use operating_system_project.Prelude.{◌≡◌, refl, true, false, [], ◌∷◌, map, length}
use operating_system_project.Prelude.{pos, negsuc}
use operating_system_project.Chat.Reader.{read_line, reader, Reader, chunk, closed, interrupted}
use operating_system_project.Chat.Lines.{read_line-Describes, items, first_line, Describes}
use operating_system_project.Chat.Serve.{serve_line}
use operating_system_project.Chat.Admission.{
  Reach-IsCounted, admitted, Server, IsCounted, Reach, serving, ended, connect, answers, hangs_up,
  counts_down, start, later,
}

encrypt-decrypts_example :
    (map (shift_byte 23) (encrypt (120 ∷ 33 ∷ 65 ∷ [])) ≡ 120 ∷ 33 ∷ 65 ∷ [])
    × (length (encrypt (120 ∷ 33 ∷ 65 ∷ [])) ≡ 3)
encrypt-decrypts_example = encrypt-decrypts (120 ∷ 33 ∷ 65 ∷ [])

-- "hi\n" in two pieces with an interruption between them
abbrev pieces : Reader
pieces = reader [] (chunk 104 [] ∷ interrupted ∷ chunk 105 (10 ∷ 65 ∷ []) ∷ closed ∷ [])

read_line-Describes_example :
    Describes 0 (λ i. 7) (first_line 255 (items pieces)) (read_line 256 (λ i. 7) pieces)
read_line-Describes_example = read_line-Describes 256 (λ i. 7) pieces

-- A client that connects and goes away without a line.
abbrev gone : Server
gone = record { nserv = negsuc 0; threads = ended false ∷ [] }

gone-Reach : Reach gone
gone-Reach =
    later (later (later start connect) (hangs_up [] [] false refl)) (counts_down [] [] false refl)

-- Three clients connect and send a line behind it: all three are admitted.
abbrev crowded : Server
crowded = record {
  nserv = pos 2;
  threads = ended false ∷ serving true ∷ serving true ∷ serving true ∷ [];
}

crowded-Reach : Reach crowded
unfolding serve_line
crowded-Reach =
    later
      (later
        (later (later (later (later gone-Reach connect) connect) connect) (
          answers (ended false ∷ []) (serving false ∷ serving false ∷ []) false (104 ∷ 10 ∷ [])
            (encrypt (104 ∷ 10 ∷ [])) refl refl))
        (answers (ended false ∷ serving true ∷ []) (serving false ∷ []) false (104 ∷ 10 ∷ [])
          (encrypt (104 ∷ 10 ∷ [])) refl refl))
      (answers (ended false ∷ serving true ∷ serving true ∷ []) [] false (104 ∷ 10 ∷ [])
        (encrypt (104 ∷ 10 ∷ [])) refl refl)

Reach-IsCounted_example : IsCounted crowded
Reach-IsCounted_example = Reach-IsCounted crowded-Reach

crowded_three : admitted crowded ≡ 3
crowded_three = refl
