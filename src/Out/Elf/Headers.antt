-- ===== src/Out/Elf/Headers.antt =====
-- The structures of an ELF file (Assembler/src/out.c) and their bytes in memory: the fields in their
-- order with no gap between them, each with its low byte first. A field holds its width's bits of the
-- value that is assigned to it. The 32-bit and the 64-bit structures have the same fields.
use assembler_project.Base.{ℕ, ◌≡◌, refl, ◌∙◌, List, ◌++◌, arith, length, length-append}
use assembler_project.Out.{bytes_le}

pub record Ehdr : Type 0 where
  pub e_ident : List ℕ
  pub e_type : ℕ
  pub e_machine : ℕ
  pub e_version : ℕ
  pub e_entry : ℕ
  pub e_phoff : ℕ
  pub e_shoff : ℕ
  pub e_flags : ℕ
  pub e_ehsize : ℕ
  pub e_phentsize : ℕ
  pub e_phnum : ℕ
  pub e_shentsize : ℕ
  pub e_shnum : ℕ
  pub e_shstrndx : ℕ

pub record Phdr : Type 0 where
  pub p_type : ℕ
  pub p_flags : ℕ
  pub p_offset : ℕ
  pub p_vaddr : ℕ
  pub p_paddr : ℕ
  pub p_filesz : ℕ
  pub p_memsz : ℕ
  pub p_align : ℕ

pub record Shdr : Type 0 where
  pub sh_name : ℕ
  pub sh_type : ℕ
  pub sh_flags : ℕ
  pub sh_addr : ℕ
  pub sh_offset : ℕ
  pub sh_size : ℕ
  pub sh_link : ℕ
  pub sh_info : ℕ
  pub sh_addralign : ℕ
  pub sh_entsize : ℕ

-- The last six fields of both file headers.
abbrev half_fields : Ehdr → List ℕ
half_fields h =
    bytes_le 2 h.e_ehsize
    ++ (bytes_le 2 h.e_phentsize
        ++ (bytes_le 2 h.e_phnum
            ++ (bytes_le 2 h.e_shentsize ++ (bytes_le 2 h.e_shnum ++ bytes_le 2 h.e_shstrndx))))

unfoldable pub elf32_ehdr : Ehdr → List ℕ
elf32_ehdr h =
    h.e_ident
    ++ (bytes_le 2 h.e_type
        ++ (bytes_le 2 h.e_machine
            ++ (bytes_le 4 h.e_version
                ++ (bytes_le 4 h.e_entry
                    ++ (bytes_le 4 h.e_phoff
                        ++ (bytes_le 4 h.e_shoff ++ (bytes_le 4 h.e_flags ++ half_fields h)))))))

unfoldable pub elf64_ehdr : Ehdr → List ℕ
elf64_ehdr h =
    h.e_ident
    ++ (bytes_le 2 h.e_type
        ++ (bytes_le 2 h.e_machine
            ++ (bytes_le 4 h.e_version
                ++ (bytes_le 8 h.e_entry
                    ++ (bytes_le 8 h.e_phoff
                        ++ (bytes_le 8 h.e_shoff ++ (bytes_le 4 h.e_flags ++ half_fields h)))))))

unfoldable pub elf32_phdr : Phdr → List ℕ
elf32_phdr h =
    bytes_le 4 h.p_type
    ++ (bytes_le 4 h.p_offset
        ++ (bytes_le 4 h.p_vaddr
            ++ (bytes_le 4 h.p_paddr
                ++ (bytes_le 4 h.p_filesz
                    ++ (bytes_le 4 h.p_memsz ++ (bytes_le 4 h.p_flags ++ bytes_le 4 h.p_align))))))

unfoldable pub elf64_phdr : Phdr → List ℕ
elf64_phdr h =
    bytes_le 4 h.p_type
    ++ (bytes_le 4 h.p_flags
        ++ (bytes_le 8 h.p_offset
            ++ (bytes_le 8 h.p_vaddr
                ++ (bytes_le 8 h.p_paddr
                    ++ (bytes_le 8 h.p_filesz ++ (bytes_le 8 h.p_memsz ++ bytes_le 8 h.p_align))))))

-- Here `w` is the width of an address.
abbrev shdr_bytes : ℕ → Shdr → List ℕ
shdr_bytes w h =
    bytes_le 4 h.sh_name
    ++ (bytes_le 4 h.sh_type
        ++ (bytes_le w h.sh_flags
            ++ (bytes_le w h.sh_addr
                ++ (bytes_le w h.sh_offset
                    ++ (bytes_le w h.sh_size
                        ++ (bytes_le 4 h.sh_link
                            ++ (bytes_le 4 h.sh_info
                                ++ (bytes_le w h.sh_addralign ++ bytes_le w h.sh_entsize))))))))

unfoldable pub elf32_shdr : Shdr → List ℕ
elf32_shdr h = shdr_bytes 4 h

unfoldable pub elf64_shdr : Shdr → List ℕ
elf64_shdr h = shdr_bytes 8 h

pub length-phdr : (h : Phdr) → (length (elf32_phdr h) ≡ 32) × (length (elf64_phdr h) ≡ 56)
unfolding elf32_phdr elf64_phdr
length-phdr h = (refl, refl)

pub length-shdr : (h : Shdr) → (length (elf32_shdr h) ≡ 40) × (length (elf64_shdr h) ≡ 64)
unfolding elf32_shdr elf64_shdr
length-shdr h = (refl, refl)

pub length-ehdr :
    (h : Ehdr) → length h.e_ident ≡ 16 → (length (elf32_ehdr h) ≡ 52) × (length (elf64_ehdr h) ≡ 64)
unfolding elf32_ehdr elf64_ehdr
length-ehdr h l =
    (length-append h.e_ident _ ∙ omega (arith, l), length-append h.e_ident _ ∙ omega (arith, l))
