-- ===== src/Match/Rank.antt =====
-- match/rank.go: how common each byte value is in text.
use gripgrep.Base.{ℕ, ◌+◌, Bool, List, [], ◌∷◌, ltb, leb}
use gripgrep.Base.{if◌then◌else◌, Bytes, get_or}

-- `[256]byte`; a table of the program's own, so it is copied whole.
byte_frequency : List ℕ
byte_frequency =
    55 ∷ 52 ∷ 51 ∷ 50 ∷ 49 ∷ 48 ∷ 47 ∷ 46 ∷ 45 ∷ 103 ∷ 242 ∷ 66 ∷ 67 ∷ 229 ∷ 44 ∷ 43 ∷ 42 ∷ 41 ∷ 40
    ∷ 39 ∷ 38 ∷ 37 ∷ 36 ∷ 35 ∷ 34 ∷ 33 ∷ 56 ∷ 32 ∷ 31 ∷ 30 ∷ 29 ∷ 28 ∷ 255 ∷ 148 ∷ 164 ∷ 149 ∷ 136
    ∷ 160 ∷ 155 ∷ 173 ∷ 221 ∷ 222 ∷ 134 ∷ 122 ∷ 232 ∷ 202 ∷ 215 ∷ 224 ∷ 208 ∷ 220 ∷ 204 ∷ 187 ∷ 183
    ∷ 179 ∷ 177 ∷ 168 ∷ 178 ∷ 200 ∷ 226 ∷ 195 ∷ 154 ∷ 184 ∷ 174 ∷ 126 ∷ 120 ∷ 191 ∷ 157 ∷ 194 ∷ 170
    ∷ 189 ∷ 162 ∷ 161 ∷ 150 ∷ 193 ∷ 142 ∷ 137 ∷ 171 ∷ 176 ∷ 185 ∷ 167 ∷ 186 ∷ 112 ∷ 175 ∷ 192 ∷ 188
    ∷ 156 ∷ 140 ∷ 143 ∷ 123 ∷ 133 ∷ 128 ∷ 147 ∷ 138 ∷ 146 ∷ 114 ∷ 223 ∷ 151 ∷ 249 ∷ 216 ∷ 238 ∷ 236
    ∷ 253 ∷ 227 ∷ 218 ∷ 230 ∷ 247 ∷ 135 ∷ 180 ∷ 241 ∷ 233 ∷ 246 ∷ 244 ∷ 231 ∷ 139 ∷ 245 ∷ 243 ∷ 251
    ∷ 235 ∷ 201 ∷ 196 ∷ 240 ∷ 214 ∷ 152 ∷ 182 ∷ 205 ∷ 181 ∷ 127 ∷ 27 ∷ 212 ∷ 211 ∷ 210 ∷ 213 ∷ 228
    ∷ 197 ∷ 169 ∷ 159 ∷ 131 ∷ 172 ∷ 105 ∷ 80 ∷ 98 ∷ 96 ∷ 97 ∷ 81 ∷ 207 ∷ 145 ∷ 116 ∷ 115 ∷ 144 ∷ 130
    ∷ 153 ∷ 121 ∷ 107 ∷ 132 ∷ 109 ∷ 110 ∷ 124 ∷ 111 ∷ 82 ∷ 108 ∷ 118 ∷ 141 ∷ 113 ∷ 129 ∷ 119 ∷ 125
    ∷ 165 ∷ 117 ∷ 92 ∷ 106 ∷ 83 ∷ 72 ∷ 99 ∷ 93 ∷ 65 ∷ 79 ∷ 166 ∷ 237 ∷ 163 ∷ 199 ∷ 190 ∷ 225 ∷ 209
    ∷ 203 ∷ 198 ∷ 217 ∷ 219 ∷ 206 ∷ 234 ∷ 248 ∷ 158 ∷ 239 ∷ 255 ∷ 255 ∷ 255 ∷ 255 ∷ 255 ∷ 255 ∷ 255
    ∷ 255 ∷ 255 ∷ 255 ∷ 255 ∷ 255 ∷ 255 ∷ 255 ∷ 255 ∷ 255 ∷ 255 ∷ 255 ∷ 255 ∷ 255 ∷ 255 ∷ 255 ∷ 255
    ∷ 255 ∷ 255 ∷ 255 ∷ 255 ∷ 255 ∷ 255 ∷ 255 ∷ 255 ∷ 255 ∷ 255 ∷ 255 ∷ 255 ∷ 255 ∷ 255 ∷ 255 ∷ 255
    ∷ 255 ∷ 255 ∷ 255 ∷ 255 ∷ 255 ∷ 255 ∷ 255 ∷ 255 ∷ 255 ∷ 255 ∷ 255 ∷ 255 ∷ 255 ∷ 255 ∷ 255 ∷ 255
    ∷ 255 ∷ 255 ∷ 255 ∷ 255 ∷ 255 ∷ 255 ∷ 255 ∷ 255 ∷ 255 ∷ []

-- The rank of a byte. A byte is below 256, so the default is never read.
unfoldable pub rank : ℕ → ℕ
unfolding byte_frequency
rank b = get_or byte_frequency b 0

abbrev pub poisonous_rank : ℕ
poisonous_rank = 250

unfoldable pub is_poisonous_byte : ℕ → Bool
is_poisonous_byte b = leb poisonous_rank (rank b)

-- The loop of `rarestByte`: `i` is the index of the first byte of the list that is left.
unfoldable pub rarest_from : ℕ → ℕ → ℕ → Bytes → ℕ
rarest_from i best best_rank [] = best
rarest_from i best best_rank (b ∷ bs) =
    rarest_from (i + 1) (if ltb (rank b) best_rank then i else best)
      (if ltb (rank b) best_rank then rank b else best_rank) bs

-- Go requires a literal that is not empty.
unfoldable pub rarest_byte : Bytes → ℕ
unfolding rarest_from
rarest_byte [] = 0
rarest_byte (b ∷ bs) = rarest_from 1 0 (rank b) bs
